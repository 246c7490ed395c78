-- ===== src/Controller/Laws/Progress.antt =====
-- No step of a tenant fails: no null pointer, no exception, no failed assertion.
use hvbench.Base.{
  All, ℕ, ◌≡◌, refl, ◌⊎◌, inl, inr, Bool, true, Bool-cases, List, [], ◌∷◌, ◌++◌, Option, some,
  arith, Text,
}
use hvbench.Base.Int.{to_i32}
use hvbench.Base.Result.{ok, ◌>>=◌}
use hvbench.Msg.{Ofpt, of_value, features_reply, echo_reply, stats_reply}
use hvbench.Msg.Messages.{Time}
use hvbench.Conn.{Conn, wrap}
use hvbench.Stats.Latency.{LatencyStats}
use hvbench.Stats.Latency.Named.{Named, received-Named}
use hvbench.Generator.Dispatch.Valid.{IsReadable, update_total, update-IsValid}
use hvbench.Controller.Defs.{
  Externals, Controller, ConnEvent, event_established, connection_callback, message_callback,
  on_message, note_reply, stop,
}
use hvbench.Controller.Run.{
  Tenant, Phase, awaiting_switch, waiting, recording, step, run, Event, turns, connection, message,
  stops, updates, studies,
}
use hvbench.Controller.Laws.Ready.{IsReady, IsSound, Succeeds}
use hvbench.Controller.Laws.Turns.{turn_total}

module _ (x : Externals) where
  note_reply_total :
      (xid type : ℕ) (now : Time) (c : Controller x)
      → Named x.queue x.acc c.latency_stats
      → (s : LatencyStats x.queue x.acc) × (note_reply x xid type now c
          ≡ ok (record c { latency_stats = s }, []))
        × Named x.queue x.acc s
  unfolding note_reply
  note_reply_total xid type now c n =
      let (s, done, named) = received-Named x.queue x.acc c.latency_stats (to_i32 xid) type now n in
      (s, rw (done, ◌>>=◌), named)

  on_message_total :
      (o : Option Ofpt) (type : ℕ) (msg : Text) (now : Time) (is_alive : Bool) (c : Controller x)
      → Named x.queue x.acc c.latency_stats
      → (s : LatencyStats x.queue x.acc) × (bytes : List Text) × (on_message x o type msg now
            is_alive c
          ≡ ok (record c { latency_stats = s }, bytes))
        × Named x.queue x.acc s
  unfolding on_message
  on_message_total (some features_reply) type msg now is_alive c n =
      let (s, done, named) = note_reply_total _ type now c n in (s, [], done, named)
  on_message_total (some echo_reply) type msg now is_alive c n =
      let (s, done, named) = note_reply_total _ type now c n in (s, [], done, named)
  on_message_total (some stats_reply) type msg now is_alive c n =
      let (s, done, named) = note_reply_total _ _ now c n in (s, [], done, named)
  on_message_total _ type msg now is_alive c n = (c.latency_stats, _, refl, n)

  linked-IsReady :
      (p : Phase) (up : Bool) (conn : Option Conn) (k : Conn)
      → IsReady p up conn
      → IsReady p true (some k)
  linked-IsReady awaiting_switch up conn k r = inr (k, refl)
  linked-IsReady (waiting m) up conn k r = ((k, refl), r.1)
  linked-IsReady (recording m late now) up conn k r = ((k, refl), r.1)
  linked-IsReady _ up conn k r = (k, refl)

  -- A callback of the connection changes nothing, or sets the connection.
  pub connection_callback-cases :
      (id : ℕ) (e : ConnEvent) (c : Controller x)
      → (connection_callback x id e c ≡ c)
        ⊎ (connection_callback x id e c ≡ record c { switch_up = true; conn = some (wrap id 0) })
  unfolding connection_callback
  connection_callback-cases id event_established c = elim (Bool-cases c.switch_up) [
    | inl up ↦ inl (ground arith)
    | inr down ↦ inr (ground arith)
  ]
  connection_callback-cases id _ c = inl refl

  -- A change of the configuration can be read; nothing is asked of the other events.
  abbrev pub IsAccepted : Event → Type 0
  IsAccepted (updates key value) = IsReadable x.random x.boost key value
  IsAccepted _ = Unit {0}

  pub step_total : (t : Tenant x) (e : Event) → IsAccepted e → IsSound x t → Succeeds x (step x t e)
  unfolding step stop message_callback
  step_total t (turns rd) a s = turn_total x t.phase rd t refl s.generator s.ready s.named
  step_total t (connection id e) a s = elim (connection_callback-cases id e t.controller) [
    | inl same ↦ rw same (t, [], refl, s)
    | inr linked ↦ rw linked (
      _,
      _,
      refl,
      record {
        generator = s.generator;
        ready = linked-IsReady t.phase _ _ (wrap id 0) s.ready;
        named = s.named;
      },
    )
  ]
  step_total t (message type msg now is_alive) a s =
      let (ls, bytes, done, named) =
        on_message_total (of_value type) type msg now is_alive t.controller s.named in
      rw (message_callback, done)
        (_, _, refl, record { generator = s.generator; ready = s.ready; named = named })
  step_total t (updates key value) a s =
      let (g, new) = update_total x.random x.boost key value t.generator a in
      rw new (
        _,
        [],
        refl,
        record {
          generator = update-IsValid x.random x.boost key value t.generator new s.generator;
          ready = s.ready;
          named = s.named;
        },
      )
  step_total t (studies study_id run_id) a s =
      (_, [], refl, record { generator = s.generator; ready = s.ready; named = s.named })
  step_total t stops a s =
      (_, [], refl, record { generator = s.generator; ready = s.ready; named = s.named })

  -- Whatever happens to a sound tenant, in whatever order of whole steps, every step ends without a null
  -- pointer, an exception or a failed assertion, and the tenant stays sound. Of a change of the
  -- configuration this asks that its value can be read, and, as a whole step, that it does not fall
  -- into a call of the generator's `next`: the source takes no lock there.
  pub run_total :
      (es : List Event) (t : Tenant x) → All IsAccepted es → IsSound x t → Succeeds x (run x es t)
  unfolding run
  run_total [] t a s = (t, [], refl, s)
  run_total (e ∷ es) t a s =
      let (t₁, fx, first, sound) = step_total t e a.0 s in
      let (t₂, fx₂, later, still) = run_total es t₁ a.1 sound in
      (t₂, fx ++ fx₂, rw (first, later), still)
