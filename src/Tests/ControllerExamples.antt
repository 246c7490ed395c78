-- ===== src/Tests/ControllerExamples.antt =====
-- The theorems on the controller, the instance and the simulated switch at concrete inputs.
use hvbench.Base.{
  none, ◌+◌, ◌%◌, ◌^◌, ◌≡◌, ◌≤◌, ◌<◌, ◌⊎◌, refl, true, [], ◌∷◌, ◌++◌, some, arith, codes, All,
  text_eqb, text_key,
}
use hvbench.Base.Int.{sub_ℕ}
use hvbench.Base.Result.{ok, fault, null_pointer, out_of_range}
use hvbench.Base.Dict.{lookup, insert, get_or, has}
use hvbench.Conf.{c_etcd_ptenants_conf}
use hvbench.Generator.Constant
use hvbench.Generator.Dispatch.{constant, next, update}
use hvbench.Controller.Defs.{Controller, event_established, connection_callback, message_callback}
use hvbench.Controller.Run.{
  Reading, Tenant, fetching, waiting, recording, report, accept, try_send, turn, step, run, turns,
  connection, stops,
}
use hvbench.Controller.Laws.Steps.{IsReport}
use hvbench.Controller.Laws.Sending.{turn-waiting, Balanced, run-Balanced}
use hvbench.Controller.Laws.Connection.{
  Handles, message_callback_lem, IsLinked, run-IsLinked, StaysIdle, run-StaysIdle,
}
use hvbench.Controller.Laws.Report.{accept_figures}
use hvbench.Msg.{ofpt_key, ofpt_eqb, str, feature_request}
use hvbench.Msg.Laws.{contains}
use hvbench.Stats.Collector
use hvbench.Stats.Collector.{Collector, visit_controller, visit_latency, visit_counters}
use hvbench.Controller.Laws.Bytes.{bytes_of, total, run-bytes}
use hvbench.HvBench.{on_change_tenant_conf, on_new_tenant, stop_tenants, set}
use hvbench.HvBench.Routing.{tenant_key, on_change_tenant_conf_short, on_change_tenant_conf-update}
use hvbench.HvBench.Startup.{on_new_tenant-stop_tenants, on_change_tenant_conf_early}
use hvbench.Tenant
use hvbench.Node.Switch.{base_message_callback, frees}
use hvbench.Node.Switch.Laws.{hello_accepted}
use hvbench.Tests.Libraries.{externals_example as x, fluid_example, read_u32}
use hvbench.Controller.Run.{awaiting_switch}
use hvbench.Tenant.{in_run, as_running}
use hvbench.Tenant.Stopping.{stop-HasReturned, stop_idle}
use hvbench.Tests.Stopping.{three, test_output, can_stop}
use hvbench.Tests.Inputs.{
  steady, due, controller, tenant_in, unconnected, early, handle, instance_1, settings, link,
}

turn-waiting_example :
    ((8000 < 9000) × ((tenant_in (waiting due)).phase ≡ waiting due) × All IsReport [])
    ⊎ ((9000 ≤ 8000) × ((tenant_in (waiting due)).phase ≡ recording due (sub_ℕ 8000 9000) 8000))
unfolding step turn report try_send
turn-waiting_example = turn-waiting x early due (tenant_in (waiting due)) refl refl

-- The tenant after a turn that takes the next message.
abbrev fetched : Tenant x
fetched = record (tenant_in (waiting (Constant.next fluid_example steady).0)) {
  generator = constant (Constant.next fluid_example steady).1;
}

run-Balanced_example : Balanced x fetched
unfolding run step turn next get_or lookup
run-Balanced_example = run-Balanced x (turns early ∷ []) (tenant_in fetching) (λ k. refl) refl

-- A reading at the time of the message, and the tenant after a turn at it.
abbrev timely : Reading
timely = record early { now = 9000 }

abbrev sent_one : Tenant x
sent_one = record (tenant_in (recording due (sub_ℕ 8000 9000) 8000)) {
  controller = record controller { conn = some (record { id = 4; dp = 0; byte_cnt = 3 }) };
}

run-bytes_example :
    bytes_of x sent_one % 2 ^ 64
    ≡ (bytes_of x (tenant_in (waiting due)) + total x (turns timely ∷ []) (tenant_in (waiting due)))
      % 2 ^ 64
unfolding run step turn report try_send
run-bytes_example =
    run-bytes x 4 (turns timely ∷ []) (tenant_in (waiting due)) (refl, refl) refl refl

message_callback_lem_example :
    Handles x 2
      (1 ∷ 2 ∷ 5 ∷ [])
      8000
      true
      controller
      (message_callback x 2 (1 ∷ 2 ∷ 5 ∷ []) 8000 true controller)
message_callback_lem_example = message_callback_lem x 2 (1 ∷ 2 ∷ 5 ∷ []) 8000 true controller

run-IsLinked_example : IsLinked x 4 controller
unfolding run step connection_callback
run-IsLinked_example =
    run-IsLinked x 4 (connection 9 event_established ∷ []) (tenant_in fetching) (refl, refl) refl

run-StaysIdle_example : StaysIdle x (run x (stops ∷ turns early ∷ []) unconnected)
run-StaysIdle_example =
    run-StaysIdle x (stops ∷ turns early ∷ []) unconnected (tt, (tt, tt)) (refl, refl)

-- Three features requests were sent, and ten bytes.
abbrev counting : Controller x
counting = record controller {
  counters = (feature_request, 3) ∷ [];
  conn = some (record { id = 4; dp = 0; byte_cnt = 10 });
}

-- What a report collects of it.
abbrev collected : Collector
collected = elim (accept x early counting Collector.create) [
  | ok (col, _) ↦ col
  | fault _ ↦ Collector.create
]

accept_figures_example :
    (lookup (codes "requests_FEATURE_REQUEST_cnt") collected.statistics ≡ some 3)
    × (lookup (codes "tx_bytes") collected.statistics ≡ some 10)
unfolding accept visit_controller visit_latency lookup str contains ofpt_eqb get_or
accept_figures_example =
    accept_figures x early counting Collector.create feature_request (codes "FEATURE_REQUEST")
      (record { id = 4; dp = 0; byte_cnt = 10 }) refl refl refl refl

on_change_tenant_conf_short_example :
    (on_change_tenant_conf x
        (record { action = set; pairs = (c_etcd_ptenants_conf ++ b'/' ∷ codes "t1", []) ∷ [] })
        instance_1
      ≡ fault out_of_range)
    × (on_change_tenant_conf x
          (record {
            action = set;
            pairs = (tenant_key x (codes "t1") (codes "generator"), []) ∷ [];
          })
          instance_1
        ≡ fault out_of_range)
unfolding has lookup text_eqb
on_change_tenant_conf_short_example =
    on_change_tenant_conf_short x instance_1 set (codes "t1") (codes "generator") [] []
      (omega arith) (omega arith)

on_change_tenant_conf-update_example :
    on_change_tenant_conf x
      (record {
        action = set;
        pairs =
            (tenant_key x (codes "t1") (codes "generator_conf" ++ b'/' ∷ codes "avg_rate"), 10 ∷ [])
            ∷ [];
      })
      instance_1
    ≡ ok (record instance_1 {
      tenants =
          insert
            (codes "t1")
            (record handle { msg_generator = some (constant steady) })
            instance_1.tenants;
    })
unfolding lookup text_eqb update Constant.update read_u32
on_change_tenant_conf-update_example =
    on_change_tenant_conf-update x instance_1 set (codes "t1") (codes "generator_conf")
      (codes "avg_rate") (10 ∷ []) [] handle (constant steady) (constant steady) (omega arith)
      (omega arith) refl refl refl refl

-- The tenant `t1` can be stopped; `t2` is new.
on_new_tenant-stop_tenants_example :
    stop_tenants x
      (λ k. ([], three))
      test_output
      (insert (codes "t2") (Tenant.create x (codes "t2")) instance_1.tenants)
    ≡ fault null_pointer
unfolding on_new_tenant has lookup text_eqb stop_tenants
on_new_tenant-stop_tenants_example =
    let (t', told, _) = stop-HasReturned x 9000 test_output ([], three) handle can_stop in
    on_new_tenant-stop_tenants x (λ k. ([], three)) instance_1
      (record instance_1 {
        tenants = insert (codes "t2") (Tenant.create x (codes "t2")) instance_1.tenants;
      })
      (codes "t2") {m = (codes "t1", t') ∷ []} refl (rw (told, stop_tenants) refl)

on_change_tenant_conf_early_example :
    on_change_tenant_conf x
      (record {
        action = set;
        pairs =
            (tenant_key x (codes "t1") (codes "generator_conf" ++ b'/' ∷ codes "avg_rate"), 10 ∷ [])
            ∷ [];
      })
      (record instance_1 { tenants = (codes "t1", Tenant.create x (codes "t1")) ∷ [] })
    ≡ fault null_pointer
unfolding lookup text_eqb Tenant.create
on_change_tenant_conf_early_example =
    on_change_tenant_conf_early x
      (record instance_1 { tenants = (codes "t1", Tenant.create x (codes "t1")) ∷ [] }) set
      (codes "t1") (codes "generator_conf") (codes "avg_rate") (10 ∷ []) []
      (Tenant.create x (codes "t1")) (omega arith) (omega arith) refl refl refl

-- The hello of a version that is not supported.
hello_accepted_example :
    base_message_callback fluid_example settings 1 (4 ∷ 0 ∷ 0 ∷ 8 ∷ []) link ≡ ok (link, frees ∷ [])
hello_accepted_example =
    hello_accepted fluid_example settings 1 link 4 (4 ∷ 0 ∷ 0 ∷ 8 ∷ []) refl refl (omega arith)
      (omega arith) refl (omega arith) (omega arith)

-- A tenant whose switch has not come.
stop_idle_example :
    Tenant.stop x test_output
      ([], stops ∷ turns early ∷ [])
      (record handle {
        hvcontroller = some unconnected.controller;
        thread = in_run awaiting_switch 7;
      })
    ≡ ok none
unfolding as_running
stop_idle_example =
    stop_idle x test_output (stops ∷ turns early ∷ [])
      (record handle {
        hvcontroller = some unconnected.controller;
        thread = in_run awaiting_switch 7;
      })
      unconnected refl (refl, refl) (tt, (tt, tt))
