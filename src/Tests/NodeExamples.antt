-- ===== src/Tests/NodeExamples.antt =====
-- The theorems on the simulated switch and on the program at concrete inputs.
use hvbench.Base.{◌≡◌, refl, true, false, List, [], ◌∷◌, some, arith, codes}
use hvbench.Base.Int.{pos}
use hvbench.Base.Result.{ok, fault, dangling}
use hvbench.Node.Switch.{base_message_callback, on_hello, deletes}
use hvbench.Node.Client
use hvbench.Node.Client.{try_connect, ended, stopped}
use hvbench.Node.Life
use hvbench.Node.Life.{
  HvBenchNode, Link, Out, Event, connects, changes, receives, checks, stops_conn, stops_client,
  event_up, event_down, event_closed, down, on, stop_conn,
}
use hvbench.Node.Life.Legal.{GoesWell, IsLegal}
use hvbench.Node.Life.Sound.{run-GoesWell}
use hvbench.Node.Life.Closed.{IsOver, run-StaysOver}
use hvbench.Node.Life.Opening.{SaysHelloFirst, run-SaysHelloFirst}
use hvbench.Tests.Libraries.{fluid_example}
use hvbench.Tests.Inputs.{settings, link}

abbrev started : HvBenchNode
started = Life.start false (Life.create (codes "10.0.0.1") (pos 6633))

-- A connection from its first event to its last, with a hello, a round of the liveness check and the
-- stop behind it.
abbrev history : List Event
history =
    connects true
    ∷ connects true
    ∷ connects true
    ∷ changes 0 event_up
    ∷ receives 0 (1 ∷ 0 ∷ 0 ∷ 8 ∷ 0 ∷ 0 ∷ 0 ∷ 8 ∷ [])
    ∷ checks 0
    ∷ stops_conn
    ∷ changes 0 event_down
    ∷ changes 0 event_closed
    ∷ stops_client
    ∷ []

history-IsLegal : IsLegal fluid_example settings 5 link history started
unfolding Life.step Life.start Life.create Life.stop_conn base_message_callback on_hello
history-IsLegal = (
  tt,
  (
    tt,
    (
      tt,
      (
        (refl, _, refl, tt),
        (
          ((refl, _, refl, refl), (1, 0, 0, 8, 0, 0, 0, 8, [], refl, omega arith, omega arith)),
          (
            (refl, _, refl, refl),
            ((tt, tt), ((refl, _, refl, tt), ((refl, _, refl, tt), (tt, tt)))),
          ),
        ),
      ),
    ),
  ),
)

run-GoesWell_example : GoesWell (Life.run fluid_example settings 5 link history started)
unfolding Life.start Life.create
run-GoesWell_example =
    run-GoesWell fluid_example settings 5 link history started refl history-IsLegal

run-SaysHelloFirst_example :
    SaysHelloFirst fluid_example settings 5 link
      (Life.run fluid_example settings 5 link history started)
unfolding Life.start Life.create
run-SaysHelloFirst_example =
    run-SaysHelloFirst fluid_example settings 5 link history started refl refl refl history-IsLegal

-- The same switch with a connection that has gone down.
abbrev going : HvBenchNode
going = record {
  base = record (Client.create (codes "10.0.0.1") (pos 6633)) {
    conn_thread = ended;
    loop = Client.running;
  };
  conn = some 0;
  links = record { stage = down; manager = some link; is_deleted = false } ∷ [];
}

run-StaysOver_example :
    (n : HvBenchNode) × (Life.run fluid_example settings 5 link
        (changes 0 event_closed ∷ connects true ∷ stops_client ∷ [])
        going
      ≡ ok (n, on 0 deletes ∷ []))
    × IsOver n
    × (stop_conn n ≡ fault dangling)
unfolding Life.step Client.create
run-StaysOver_example =
    run-StaysOver fluid_example settings 5 link (connects true ∷ stops_client ∷ []) going
      (refl, (refl, refl, link, refl)) ((refl, _, refl, tt), (tt, (tt, tt)))
