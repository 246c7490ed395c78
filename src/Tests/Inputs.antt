-- ===== src/Tests/Inputs.antt =====
-- The states and messages of the examples.
use hvbench.Base.{false, true, [], ◌∷◌, none, some, codes}
use hvbench.Base.Int.{pos}
use hvbench.External.Queue.{ConcurrentQueue}
use hvbench.External.Accumulators.{Accumulators}
use hvbench.External.Fluid.{Settings}
use hvbench.Msg.{echo_request, feature_request}
use hvbench.Msg.Messages.{OfMsg, ScheduledMsg, FactoryClass}
use hvbench.Stats.Latency.{Sent, LatencyStats}
use hvbench.Generator.Abstract.{AbstractGenerator}
use hvbench.Generator.Constant.{ConstantGenerator}
use hvbench.Generator.Dispatch.{constant}
use hvbench.Controller.Defs.{Controller}
use hvbench.Controller.Run.{Tenant, Phase, Reading, awaiting_switch, waiting}
use hvbench.Tenant.{TenantHandle, in_run}
use hvbench.HvBench.{HvBench}
use hvbench.Node.Switch.{OfConnection, state_handshake}
use hvbench.Tests.Libraries.{list_queue, acc_example, externals_example}

abbrev pub q : ConcurrentQueue Sent
q = list_queue Sent

abbrev pub a : Accumulators
a = acc_example

abbrev pub first : Sent
first = record { xid = 1; type = echo_request; tp = 1000 }

abbrev pub second : Sent
second = record { xid = 2; type = feature_request; tp = 2000 }

abbrev pub third : Sent
third = record { xid = 3; type = echo_request; tp = 3000 }

abbrev pub stats : LatencyStats q a
stats = record { reply_waiting_list = first ∷ second ∷ third ∷ []; stats_latency = [] }

abbrev pub base : AbstractGenerator
base = record { base_time = 5000; counters = [] }

-- One echo request in each tenth of a second.
abbrev pub steady : ConstantGenerator
steady = record {
  base = base;
  inter_arrival_t = 100_000_000;
  local_ns = 0;
  msg_factory = record { class = FactoryClass.echo_request_factory; cnt = 0 };
}

abbrev pub echo_msg : OfMsg
echo_msg = record {
  xid = 1;
  type = echo_request;
  pkt = 1 ∷ 2 ∷ 1 ∷ [];
  pkt_len = 3;
  has_reply = true;
}

abbrev pub due : ScheduledMsg
due = record { time_ns = 9000; of_msg = echo_msg; awaits_reply = true }

abbrev pub controller : Controller externals_example
controller = record {
  switch_up = true;
  running = true;
  conn = some (record { id = 4; dp = 0; byte_cnt = 0 });
  counters = [];
  latency_stats = stats;
  stats_late_sends = record { n = 0; least = 0; greatest = 0 };
  start = 0;
  last_bytes_cnt = 0;
}

abbrev pub tenant_in : Phase → Tenant externals_example
tenant_in p = record {
  id = codes "t1";
  controller = controller;
  generator = constant steady;
  output = record { study_id = codes "test"; run_id = pos 1 };
  phase = p;
  last_stat_time = 7;
}

-- A tenant whose switch has not connected.
abbrev pub unconnected : Tenant externals_example
unconnected = record (tenant_in awaiting_switch) {
  controller = record controller { switch_up = false; conn = none };
}

abbrev pub early : Reading
early = record {
  now = 8000;
  ux_time = 7;
  visit_now = 8000;
  stamp = 0;
  send_now = 8000;
  is_alive = true;
}

abbrev pub handle : TenantHandle externals_example
handle = record {
  id = codes "t1";
  hvcontroller = some controller;
  msg_generator = some (constant steady);
  thread = in_run (waiting due) 7;
}

-- An instance that knows the tenant `t1`.
abbrev pub instance_1 : HvBench externals_example
instance_1 = record {
  instance_id = 1;
  tenants = (codes "t1", handle) ∷ [];
  nodes = [];
  shutdown = false;
  output = record { study_id = codes "test"; run_id = pos 1 };
}

abbrev pub settings : Settings
settings = record {
  supported_versions = 2;
  handshake = true;
  liveness_check = true;
  dispatch_all_messages = false;
  echo_interval = 15;
}

abbrev pub link : OfConnection
link = record { version = 1; state = state_handshake; is_alive = true }
