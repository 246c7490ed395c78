-- ===== src/Tests/OrderExamples.antt =====
-- The theorems on the requests that wait, at concrete inputs.
use hvbench.Base.{◌+◌, ◌≡◌, ◌≤◌, refl, true, [], ◌∷◌, ◌++◌, some, arith, List}
use hvbench.Base.Int.{sub_ℕ}
use hvbench.Base.Result.{ok}
use hvbench.Stats.Latency.{Sent, note, sent}
use hvbench.Conn.{send}
use hvbench.Generator.Constant
use hvbench.Generator.Dispatch.{constant, next}
use hvbench.Controller.Run.{
  Reading, Tenant, Phase, fetching, waiting, recording, record_sent, report, try_send, turn, step,
  run, turns, message,
}
use hvbench.Controller.Laws.Waiting.{waiting_list, entry_of}
use hvbench.Controller.Laws.Ordered.{last_of, IsInOrder}
use hvbench.Controller.Laws.Order.{run-IsInOrder, run_reply-measures}
use hvbench.Tests.Libraries.{externals_example as x, fluid_example, second_byte_on}
use hvbench.Tests.Inputs.{a, first, steady, due, controller, tenant_in, early}

-- A tenant whose generator has made one message, with the given requests waiting.
abbrev numbered : List Sent → Phase → Tenant x
numbered ms p = record (tenant_in p) {
  controller = record controller {
    latency_stats = record { reply_waiting_list = ms; stats_latency = [] };
  };
  generator = constant (Constant.next fluid_example steady).1;
}

-- It takes the second message while the first waits for its reply.
abbrev took_second : Tenant x
took_second =
    record (numbered (first ∷ [])
      (waiting (Constant.next fluid_example (Constant.next fluid_example steady).1).0)) {
        generator = constant (Constant.next fluid_example (Constant.next fluid_example steady).1).1;
      }

run-IsInOrder_example : IsInOrder x took_second × (last_of x took_second ≤ 1 + 1)
unfolding run step turn next
run-IsInOrder_example =
    run-IsInOrder x (turns early ∷ []) (numbered (first ∷ []) fetching) (omega arith)
      (omega arith, tt, tt) refl

-- A reading at the time of the message.
abbrev timely : Reading
timely = record early { now = 9000 }

-- The first message goes out at its time, is put on the waiting list, and the second is taken.
abbrev sent_first : Tenant x
sent_first = record (numbered [] (recording due (sub_ℕ 8000 9000) 8000)) {
  controller = record (numbered [] fetching).controller {
    conn = some (record { id = 4; dp = 0; byte_cnt = 3 });
  };
}

-- After the message is recorded and the next is taken.
abbrev waited : Tenant x
waited = record (numbered (entry_of due 8000 ∷ []) fetching) {
  controller = record_sent x due (sub_ℕ 8000 9000) 8000 sent_first.controller;
  generator = constant (Constant.next fluid_example (Constant.next fluid_example steady).1).1;
  phase = waiting (Constant.next fluid_example (Constant.next fluid_example steady).1).0;
}

run_reply-measures_example :
    (t : Tenant x) × (later : List Sent) × (step x waited (message 3 (0 ∷ 0 ∷ 1 ∷ []) 8500 true)
      ≡ ok (t, []))
    × (waiting_list x waited ≡ waiting_list x sent_first ++ entry_of due 8000 ∷ later)
    × (waiting_list x t ≡ later)
    × (t.controller.latency_stats.stats_latency
        ≡ note a (entry_of due 8000) 8500 waited.controller.latency_stats.stats_latency)
unfolding run step turn next report try_send send record_sent sent second_byte_on
run_reply-measures_example =
    run_reply-measures x (turns timely ∷ []) (turns early ∷ []) early due (sub_ℕ 8000 9000) 8000
      (numbered [] (waiting due)) 3 (0 ∷ 0 ∷ 1 ∷ []) 8500 true (omega arith) (refl, tt) refl refl
      refl refl refl (tt, tt) refl refl
