-- ===== src/Controller/Laws/Connection.antt =====
-- The callbacks, the connection to the switch, and the end of a run.
use mathlib.Core.Path.{subst}
use hvbench.Base.{
  ℕ, ◌≡◌, refl, sym, ◌∙◌, ap, ◌⊎◌, inl, inr, Bool, true, false, ◌&&◌, ◌==◌, List, [], ◌∷◌, ◌++◌,
  map, none, some, arith, Text, All, if◌then◌else◌, Option, ◌||◌,
}
use hvbench.Base.Int.{to_i32}
use hvbench.Base.Result.{Result, ok, >>=-eq-ok}
use hvbench.External.Fluid.{OfMessage}
use hvbench.Msg.{Ofpt, of_value, features_reply, echo_request, echo_reply, stats_reply}
use hvbench.Msg.Messages.{Time, ScheduledMsg}
use hvbench.Conn.{Conn, send}
use hvbench.Stats.Latency.{received, LatencyStats}
use hvbench.Stats.Latency.Spec.{received-Answers}
use hvbench.Generator.Dispatch.{update}
use hvbench.Controller.Defs.{
  Externals, Controller, event_established, message_callback, on_message, note_reply, stop,
  connection_callback, setup_switch,
}
use hvbench.Controller.Run.{
  Tenant, Phase, awaiting_switch, setting_up, waiting, Reading, Effect, tx, try_send, record_sent,
  turn, step, run, Event, turns, connection, message, stops, updates, studies,
}
use hvbench.Controller.Laws.Steps.{Keeps, report_lem, turn_parts, message_callback-Keeps}

module _ (x : Externals) where
  note_reply_lem :
      (xid type : ℕ) (now : Time) (c : Controller x)
      → (s : LatencyStats x.queue x.acc) × (note_reply x xid type now c
          ≡ ok (record c { latency_stats = s }, []))
        × (received x.queue x.acc c.latency_stats (to_i32 xid) type now ≡ ok s)
  unfolding note_reply
  note_reply_lem xid type now c =
      let (s, done, _, _) = received-Answers x.queue x.acc c.latency_stats (to_i32 xid) type now in
      (s, rw (done, note_reply), done)

  abbrev is_echo_request : Option Ofpt → Bool
  is_echo_request (some echo_request) = true
  is_echo_request _ = false

  abbrev is_measured : Option Ofpt → Bool
  is_measured (some features_reply) = true
  is_measured (some echo_reply) = true
  is_measured (some stats_reply) = true
  is_measured _ = false

  abbrev is_stats_reply : Option Ofpt → Bool
  is_stats_reply (some stats_reply) = true
  is_stats_reply _ = false

  abbrev Handled :
      Option Ofpt
      → ℕ
      → Text
      → Time
      → Bool
      → Controller x
      → Result (Controller x × List Text)
      → Type 0
  Handled o type msg now is_alive c r =
      (s : LatencyStats x.queue x.acc) × (r
        ≡ ok (
          record c { latency_stats = s },
          if is_echo_request o && is_alive then x.fluid.pack (OfMessage.echo_reply 0) ∷ [] else [],
        ))
      × (((is_measured o ≡ true)
            × (received x.queue x.acc c.latency_stats (to_i32 (x.fluid.xid_of msg))
                  (if is_stats_reply o then x.fluid.stats_type_of msg else type) now
                ≡ ok s))
          ⊎ ((is_measured o ≡ false) × (s ≡ c.latency_stats)))

  on_message_lem :
      (o : Option Ofpt) (type : ℕ) (msg : Text) (now : Time) (is_alive : Bool) (c : Controller x)
      → Handled o type msg now is_alive c (on_message x o type msg now is_alive c)
  unfolding on_message
  on_message_lem (some features_reply) type msg now is_alive c =
      let (s, e, found) = note_reply_lem _ _ now c in (s, e, inl (refl, found))
  on_message_lem (some echo_reply) type msg now is_alive c =
      let (s, e, found) = note_reply_lem _ _ now c in (s, e, inl (refl, found))
  on_message_lem (some stats_reply) type msg now is_alive c =
      let (s, e, found) = note_reply_lem _ _ now c in (s, e, inl (refl, found))
  on_message_lem _ type msg now is_alive c = (c.latency_stats, ground arith, inr (refl, refl))

  is_echo_request_lem : (n : ℕ) → is_echo_request (of_value n) ≡ (n == 2)
  unfolding of_value
  is_echo_request_lem n = ground arith

  is_measured_lem : (n : ℕ) → is_measured (of_value n) ≡ ((n == 6) || (n == 3) || (n == 17))
  unfolding of_value
  is_measured_lem n = ground arith

  is_stats_reply_lem : (n : ℕ) → is_stats_reply (of_value n) ≡ (n == 17)
  unfolding of_value
  is_stats_reply_lem n = ground arith

  -- A call that ends, in a controller that differs in its response times at most: for the types 6, 3
  -- and 17 they are those that `received` gives, and for the others the same; an echo reply with the
  -- xid 0 goes out if the type is 2 and the connection is alive, and else nothing.
  abbrev pub Handles :
      ℕ → Text → Time → Bool → Controller x → Result (Controller x × List Text) → Type 0
  Handles type msg now is_alive c r =
      (s : LatencyStats x.queue x.acc) × (r
        ≡ ok (
          record c { latency_stats = s },
          if (type == 2) && is_alive then x.fluid.pack (OfMessage.echo_reply 0) ∷ [] else [],
        ))
      × (((((type == 6) || (type == 3) || (type == 17)) ≡ true)
            × (received x.queue x.acc c.latency_stats (to_i32 (x.fluid.xid_of msg))
                  (if type == 17 then x.fluid.stats_type_of msg else type) now
                ≡ ok s))
          ⊎ ((((type == 6) || (type == 3) || (type == 17)) ≡ false) × (s ≡ c.latency_stats)))

  -- Handling a message never fails. An echo request is answered, if the connection is alive, by an
  -- echo reply whose xid is 0, and no other message is. For the replies to features (6), echo (3) and
  -- statistics (17) the response times become those that `received` gives for the message's own xid
  -- and the time of the call, with the type of the statistics for the last; for all other types they
  -- stay as they are, and nothing else of the controller changes.
  pub message_callback_lem :
      (type : ℕ) (msg : Text) (now : Time) (is_alive : Bool) (c : Controller x)
      → Handles type msg now is_alive c (message_callback x type msg now is_alive c)
  unfolding message_callback
  message_callback_lem type msg now is_alive c =
      let (s, done, or_same) = on_message_lem (of_value type) type msg now is_alive c in
      (
        s,
        ground (arith, is_echo_request_lem type),
        elim or_same [
          | inl (reply, found) ↦
              inl (ground (arith, is_measured_lem type), rw (is_stats_reply_lem type) at found)
          | inr (other, same) ↦ inr (ground (arith, is_measured_lem type), same)
        ],
      )

  -- The id of a connection.
  abbrev pub conn_id : Option Conn → Option ℕ
  conn_id none = none
  conn_id (some c) = some c.id

  -- The switch is up, on the connection with the id.
  abbrev pub IsLinked : ℕ → Controller x → Type 0
  IsLinked i c = (c.switch_up ≡ true) × (conn_id c.conn ≡ some i)

  Keeps-IsLinked : {c d : Controller x} (i : ℕ) → Keeps x c d → IsLinked i c → IsLinked i d
  Keeps-IsLinked i k l = (k.switch_up ∙ l.0, ap conn_id k.conn ∙ l.1)

  try_send-IsLinked :
      (i : ℕ) (rd : Reading) (m : ScheduledMsg) (t : Tenant x) {t' : Tenant x} {fx : List Effect}
      → try_send x rd m t ≡ ok (t', fx)
      → IsLinked i t.controller
      → IsLinked i t'.controller
  unfolding try_send send
  try_send-IsLinked i rd m t h l = ground arith

  turn-IsLinked :
      (i : ℕ) (p : Phase) (rd : Reading) (t : Tenant x) {t' : Tenant x} {fx : List Effect}
      → turn x p rd t ≡ ok (t', fx)
      → IsLinked i t.controller
      → IsLinked i t'.controller
  unfolding turn record_sent
  turn-IsLinked i setting_up rd t h l =
      let (bytes, _, last) = >>=-eq-ok (setup_switch x rd.is_alive t.controller) _ h in ground arith
  turn-IsLinked i (waiting m) rd t h l =
      let (t₁, _, _, first, second, _) = turn_parts x rd m t h in
      let (_, _, _, keeps) = report_lem x rd t first in
      try_send-IsLinked i rd m t₁ second (Keeps-IsLinked i keeps l)
  turn-IsLinked i _ rd t h l = ground arith

  pub step-IsLinked :
      (i : ℕ) (t : Tenant x) (e : Event) {t' : Tenant x} {fx : List Effect}
      → step x t e ≡ ok (t', fx)
      → IsLinked i t.controller
      → IsLinked i t'.controller
  unfolding step stop connection_callback
  step-IsLinked i t (turns rd) h l = turn-IsLinked i t.phase rd t h l
  step-IsLinked i t (connection id event_established) h l = ground arith
  step-IsLinked i t (message type msg now is_alive) h l =
      let ((c, bytes), got, rest) =
        >>=-eq-ok (message_callback x type msg now is_alive t.controller) _ h in
      let kept =
        Keeps-IsLinked i (message_callback-Keeps x type msg now is_alive t.controller got) l in
      ground arith
  step-IsLinked i t (updates key value) h l =
      let (g, _, last) = >>=-eq-ok (update x.random x.boost key value t.generator) _ h in
      ground arith
  step-IsLinked i t _ h l = ground arith

  -- The connection that a controller sends on is the first one that was established: no later
  -- event, a new connection of the switch included, ever replaces it.
  pub run-IsLinked :
      (i : ℕ) (es : List Event) (t : Tenant x) {t' : Tenant x} {fx : List Effect}
      → IsLinked i t.controller
      → run x es t ≡ ok (t', fx)
      → IsLinked i t'.controller
  unfolding run
  run-IsLinked i [] t l h = ground arith
  run-IsLinked i (e ∷ es) t l h =
      let ((t₁, fx₁), first, rest) = >>=-eq-ok (step x t e) _ h in
      let ((t₂, fx₂), later, last) = >>=-eq-ok (run x es t₁) _ rest in
      let kept = run-IsLinked i es t₁ (step-IsLinked i t e first l) later in ground arith

  -- What happens while a tenant waits for its switch, but for the switch's coming and changes for
  -- the generator.
  abbrev pub IsWithoutSwitch : Event → Type 0
  IsWithoutSwitch (connection id event_established) = ⊥
  IsWithoutSwitch (updates key value) = ⊥
  IsWithoutSwitch _ = Unit {0}

  abbrev pub IsIdle : Tenant x → Type 0
  IsIdle t = (t.phase ≡ awaiting_switch) × (t.controller.switch_up ≡ false)

  -- A step that ends, in a tenant that still waits for its switch.
  abbrev pub StaysIdle : Result (Tenant x × List Effect) → Type 0
  StaysIdle r = (t : Tenant x) × (fx : List Effect) × (r ≡ ok (t, fx)) × IsIdle t

  step-StaysIdle :
      (t : Tenant x) (e : Event) → IsWithoutSwitch e → IsIdle t → StaysIdle (step x t e)
  unfolding step turn stop connection_callback
  step-StaysIdle t (turns rd) a i =
      let waits : turn x awaiting_switch rd t ≡ ok (t, []) = ground arith in
      (t, [], subst (λ p. turn x p rd t ≡ ok (t, [])) (sym i.0) waits, i)
  step-StaysIdle t (connection id event_established) a i = absurd a
  step-StaysIdle t (message type msg now is_alive) a i =
      let (s, e, _) = message_callback_lem type msg now is_alive t.controller in
      let bytes =
        if (type == 2) && is_alive then x.fluid.pack (OfMessage.echo_reply 0) ∷ [] else [] in
      (record t { controller = record t.controller { latency_stats = s } }, map tx bytes, rw e, i)
  step-StaysIdle t stops a i = (record t { controller = stop x t.controller }, [], refl, i)
  step-StaysIdle t (updates key value) a i = absurd a
  step-StaysIdle t (studies study_id run_id) a i = (_, [], refl, i)
  step-StaysIdle t (connection id _) a i = (t, [], refl, i)

  -- A tenant whose switch has not connected cannot be stopped: whatever happens but a connection or a
  -- change for its generator, calls of `stop` included, every step succeeds and its thread goes
  -- on waiting.
  pub run-StaysIdle :
      (es : List Event) (t : Tenant x) → All IsWithoutSwitch es → IsIdle t → StaysIdle (run x es t)
  unfolding run
  run-StaysIdle [] t a i = (t, [], refl, i)
  run-StaysIdle (e ∷ es) t a i =
      let (t₁, fx, first, i₁) = step-StaysIdle t e a.0 i in
      let (t₂, fx', rest, i₂) = run-StaysIdle es t₁ a.1 i₁ in (t₂, fx ++ fx', rw (first, rest), i₂)
