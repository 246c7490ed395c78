-- ===== src/Controller/Run.antt =====
-- `HVBenchController::run` (src/HVBenchController.cpp) beside the callbacks: each event is one step,
-- so a list of events is an interleaving of the sending thread with libfluid's.
use hvbench.Base.{
  ℕ, ◌+◌, ◌%◌, ◌^◌, ltb, ◌==◌, Bool, List, [], ◌∷◌, ◌++◌, some, map, Text, if◌then◌else◌,
}
use hvbench.Base.Int.{ℤ, sub_ℕ, to_i32, to_u32}
use hvbench.Base.Result.{Result, ok, null_pointer, or_fault, ◌>>=◌}
use hvbench.Base.Dict.{insert, get_or}
use hvbench.Msg.{ofpt_key}
use hvbench.Msg.Messages.{Time, ScheduledMsg}
use hvbench.Conn.{send}
use hvbench.Stats.Latency.{reset, sent}
use hvbench.Stats.Collector
use hvbench.Stats.Collector.{Collector, visit_controller, visit_latency, visit_conn}
use hvbench.Stats.Output.{OutputBase, ProduceRequest, update_study, write}
use hvbench.Generator.Dispatch.{Generator, next, update, set_time_reference}
use hvbench.Controller.Defs.{
  Externals, Controller, ConnEvent, stop, connection_callback, message_callback, setup_switch,
}

-- Where the sending thread stands.
pub data Phase : Type 0 where
  -- `while (!switch_up) cond_switch_up.wait(lock)`
  awaiting_switch : Phase
  -- before `setupSwitch()`
  setting_up : Phase
  -- the test of `while (running)`
  fetching : Phase
  -- the inner loop, with the next message
  waiting : ScheduledMsg → Phase
  -- behind `conn->send(next)`, with `late` and the time read before the send
  recording : ScheduledMsg → ℤ → Time → Phase
  finished : Phase

-- What one turn of the thread reads from its surroundings: the system clock at the head of the
-- inner loop, in whole seconds, in a visit of the collector and before the send, the milliseconds
-- since 2015, and whether the connection is alive.
pub record Reading : Type 0 where
  pub now : Time
  pub ux_time : ℕ
  pub visit_now : Time
  pub stamp : ℕ
  pub send_now : Time
  pub is_alive : Bool

pub data Effect : Type 0 where
  -- bytes to the switch
  tx : Text → Effect
  -- a report to Kafka
  produce : ProduceRequest → Effect

pub record Tenant (x : Externals) : Type 0 where
  pub id : Text
  pub controller : Controller x
  pub generator : Generator x.random
  pub output : OutputBase
  pub phase : Phase
  pub last_stat_time : ℕ

-- A turn, a callback of libfluid, a call of `stop`, or a change of the configuration, which reaches
-- the generator and the output that the thread shares with the instance.
pub data Event : Type 0 where
  turns : Reading → Event
  -- id of the connection
  connection : ℕ → ConnEvent → Event
  -- type, bytes, time, connection alive
  message : ℕ → Text → Time → Bool → Event
  stops : Event
  -- key and value, for the generator's `update`
  updates : Text → Text → Event
  -- a call of `update_study` on the output, which all tenants share
  studies : Text → ℤ → Event

module _ (x : Externals) where
  -- `accept(v)` of the controller: the report, and the controller with its samples reset.
  unfoldable pub accept : Reading → Controller x → Collector → Result (Collector × Controller x)
  accept rd c col = do
    col₁ ← visit_controller x.boost rd.visit_now rd.stamp c.start c.counters col
    col₂ ← visit_latency x.boost x.acc c.latency_stats.stats_latency col₁
    conn ← or_fault c.conn null_pointer
    ok (
      visit_conn conn.byte_cnt col₂,
      record c { latency_stats = reset x.queue x.acc c.latency_stats },
    )

  -- The head of the inner loop: once in each second a report is written.
  unfoldable pub report : Reading → Tenant x → Result (Tenant x × List Effect)
  report rd t = if t.last_stat_time == rd.ux_time then ok (t, []) else (do
    (col, c) ← accept rd t.controller Collector.create
    ok (
      record t {
        controller = record c { stats_late_sends = x.acc.fresh };
        last_stat_time = rd.ux_time;
      },
      produce (write x.boost x.write_json t.output t.id col) ∷ [],
    ))

  -- The rest of the inner loop, up to the send.
  unfoldable pub try_send : Reading → ScheduledMsg → Tenant x → Result (Tenant x × List Effect)
  unfolding send
  try_send rd m t = if ltb rd.now m.time_ns then ok (t, []) else (do
    conn ← or_fault t.controller.conn null_pointer
    let (conn', bytes) = send rd.is_alive m conn
    ok (
      record t {
        controller = record t.controller { conn = some conn' };
        phase = recording m (sub_ℕ rd.send_now m.time_ns) rd.send_now;
      },
      map tx bytes,
    ))

  -- What follows the send.
  unfoldable pub record_sent : ScheduledMsg → ℤ → Time → Controller x → Controller x
  record_sent m late now c = record c {
    stats_late_sends = x.acc.add c.stats_late_sends (to_u32 late);
    counters = insert m.of_msg.type ((get_or m.of_msg.type 0 c.counters + 1) % 2 ^ 64) c.counters;
    latency_stats =
        if m.awaits_reply
        then sent x.queue x.acc c.latency_stats (to_i32 m.of_msg.xid) m.of_msg.type now
        else c.latency_stats;
  }

  -- One turn of the sending thread.
  unfoldable pub turn : Phase → Reading → Tenant x → Result (Tenant x × List Effect)
  turn awaiting_switch rd t =
      ok (if t.controller.switch_up then record t { phase = setting_up } else t, [])
  turn setting_up rd t = do
    bytes ← setup_switch x rd.is_alive t.controller
    ok (
      record t {
        controller = record t.controller { start = rd.now };
        generator = set_time_reference x.random rd.now t.generator;
        phase = fetching;
        last_stat_time = rd.ux_time;
      },
      map tx bytes,
    )
  turn fetching rd t =
      if t.controller.running
      then (do
        (m, g) ← next x.random x.fluid t.generator
        ok (record t { generator = g; phase = waiting m }, []))
      else ok (record t { phase = finished }, [])
  turn (waiting m) rd t = do
    (t', reported) ← report rd t
    (t'', bytes) ← try_send rd m t'
    ok (t'', reported ++ bytes)
  turn (recording m late now) rd t =
      ok (record t { controller = record_sent m late now t.controller; phase = fetching }, [])
  turn finished rd t = ok (t, [])

  unfoldable pub step : Tenant x → Event → Result (Tenant x × List Effect)
  step t (turns rd) = turn t.phase rd t
  step t (connection id e) =
      ok (record t { controller = connection_callback x id e t.controller }, [])
  step t (message type msg now is_alive) = do
    (c, bytes) ← message_callback x type msg now is_alive t.controller
    ok (record t { controller = c }, map tx bytes)
  step t stops = ok (record t { controller = stop x t.controller }, [])
  step t (updates key value) = do
    g ← update x.random x.boost key value t.generator
    ok (record t { generator = g }, [])
  step t (studies study_id run_id) =
      ok (record t { output = update_study study_id run_id t.output }, [])

  -- A history of events, with all that goes out.
  unfoldable pub run : List Event → Tenant x → Result (Tenant x × List Effect)
  run [] t = ok (t, [])
  run (e ∷ es) t = do (t', fx) ← step t e; (t'', rest) ← run es t'; ok (t'', fx ++ rest)
