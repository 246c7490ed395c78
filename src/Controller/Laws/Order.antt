-- ===== src/Controller/Laws/Order.antt =====
-- The requests wait in the order of their xids.
use mathlib.Core.Path.{subst}
use hvbench.Base.{
  ℕ, suc, ◌+◌, ◌^◌, ◌≤◌, ◌<◌, ◌≡◌, refl, sym, ◌∙◌, ap, ◌⊎◌, inl, inr, Bool, true, Bool-cases, List,
  [], ◌∷◌, ◌++◌, arith, All, Text, length,
}
use hvbench.Base.Int.{ℤ, to_i32}
use hvbench.Base.Result.{ok, >>=-eq-ok}
use hvbench.Msg.Messages.{Time, ScheduledMsg}
use hvbench.Stats.Latency.{Sent, LatencyStats, note}
use hvbench.Stats.Latency.Spec.{answered, received-Answers}
use hvbench.Stats.Latency.Loss.{Unused}
use hvbench.Generator.Dispatch.{update}
use hvbench.Generator.Dispatch.Numbered.{last_xid, update-last_xid}
use hvbench.Controller.Defs.{Externals, note_reply, stop}
use hvbench.Controller.Run.{
  Tenant, recording, Reading, Effect, step, run, Event, turns, connection, message, stops, updates,
  studies,
}
use hvbench.Controller.Laws.Connection.{message_callback_lem}
use hvbench.Controller.Laws.Measured.{reply_lem, reply-measures}
use hvbench.Controller.Laws.Waiting.{
  IsNoReply, is_reply, waiting_list, entry_of, connection_callback-stats,
}
use hvbench.Controller.Laws.Rising.{Rises-answered, InOrder, InOrder-map, Rises-Unused}
use hvbench.Controller.Laws.Ordered.{last_of, IsInOrder, StaysInOrder, stays, turn-StaysInOrder}

-- An event that is neither a turn nor a message.
abbrev IsAside : Event → Type 0
IsAside (turns rd) = ⊥
IsAside (message type msg now is_alive) = ⊥
IsAside _ = Unit {0}

module _ (x : Externals) where
  -- A message from the switch leaves the list as it is, or what is behind the request answered.
  message-cases :
      (type : ℕ) (msg : Text) (now : Time) (is_alive : Bool) (t : Tenant x) {t' : Tenant x}
      {fx : List Effect}
      → step x t (message type msg now is_alive) ≡ ok (t', fx)
      → (t'.phase ≡ t.phase)
        × (t'.generator ≡ t.generator)
        × ((waiting_list x t' ≡ waiting_list x t)
            ⊎ ((xid : ℕ) × (waiting_list x t' ≡ (answered xid (waiting_list x t)).1)))
  unfolding step note_reply
  message-cases type msg now is_alive t {t'} h = elim (Bool-cases (is_reply type)) [
    | inl r ↦
        let (k, handled) = reply_lem x type msg now is_alive t.controller r in
        let (s, done, left, _) =
          received-Answers x.queue x.acc t.controller.latency_stats (to_i32 (x.fluid.xid_of msg)) k
            now in
        let last = rw (handled, note_reply, done) at h in
        let to : s ≡ t'.controller.latency_stats = ground arith in
        (
          ground arith,
          ground arith,
          inr (
            _,
            sym (ap (λ (s : LatencyStats x.queue x.acc). x.queue.contents s.reply_waiting_list) to)
                ∙ left,
          ),
        )
    | inr r ↦
        let (s, done, or_same) = message_callback_lem x type msg now is_alive t.controller in
        let last = rw done at h in
        let same : s ≡ t.controller.latency_stats = elim or_same [
          | inl (reply, _) ↦ absurd (cc)
          | inr (_, same) ↦ same
        ] in
        let to : s ≡ t'.controller.latency_stats = ground arith in
        (
          ground arith,
          ground arith,
          inl (
              ap (λ (s : LatencyStats x.queue x.acc). x.queue.contents s.reply_waiting_list)
                (sym to ∙ same)),
        )
  ]

  -- The other events.
  quiet_lem :
      (t : Tenant x) (e : Event) {t' : Tenant x} {fx : List Effect}
      → IsAside e
      → step x t e ≡ ok (t', fx)
      → (t'.phase ≡ t.phase) × (last_of x t' ≡ last_of x t) × (waiting_list x t' ≡ waiting_list x t)
  unfolding step stop
  quiet_lem t (turns rd) a h = absurd a
  quiet_lem t (message type msg now is_alive) a h = absurd a
  quiet_lem t (connection id e) {t'} a h =
      let stats = connection_callback-stats x id e t.controller in
      (ground arith, ground arith, ground arith)
  quiet_lem t stops a h = (ground arith, ground arith, ground arith)
  quiet_lem t (updates key value) a h =
      let (g, new, last) = >>=-eq-ok (update x.random x.boost key value t.generator) _ h in
      let same = update-last_xid x.random x.boost key value t.generator new in
      (ground arith, ground arith, ground arith)
  quiet_lem t (studies study_id run_id) a h = (ground arith, ground arith, ground arith)

  step-StaysInOrder :
      (t : Tenant x) (e : Event) {t' : Tenant x} {fx : List Effect}
      → last_of x t + 1 < 2 ^ 32
      → IsInOrder x t
      → step x t e ≡ ok (t', fx)
      → StaysInOrder x (last_of x t) t'
  unfolding step
  step-StaysInOrder t (turns rd) w o h = turn-StaysInOrder x t.phase rd t w o refl h
  step-StaysInOrder t (message type msg now is_alive) {t'} w o h =
      let (p, g, either) = message-cases type msg now is_alive t h in
      let same = ap (last_xid x.random) g in
      elim either [
        | inl kept ↦ stays x t' _ _ (last_of x t) _ p same kept (omega arith) o
        | inr (xid, tail) ↦ stays x t' _ _ (last_of x t) _ p same tail (omega arith) (
            InOrder-map t.phase (last_of x t) (waiting_list x t) _
              (Rises-answered xid (waiting_list x t)) o)
      ]
  step-StaysInOrder t e {t'} w o h =
      let (p, same, kept) = quiet_lem t e tt h in
      stays x t' _ _ (last_of x t) _ p same kept (omega arith) o

  -- The requests wait in strictly rising order of their xids, each at most once and below the
  -- message that is not recorded yet, however turns, callbacks and changes of the configuration
  -- interleave, until the number of the messages no longer fits in 32 bits; an event raises that
  -- number by one at most.
  pub run-IsInOrder :
      (es : List Event) (t : Tenant x) {t' : Tenant x} {fx : List Effect}
      → last_of x t + length es < 2 ^ 32
      → IsInOrder x t
      → run x es t ≡ ok (t', fx)
      → IsInOrder x t' × (last_of x t' ≤ last_of x t + length es)
  unfolding run
  run-IsInOrder [] t {t'} w o h =
      let same : t ≡ t' = ground arith in
      subst (λ t'. IsInOrder x t' × (last_of x t' ≤ last_of x t + 0)) same (o, omega arith)
  run-IsInOrder (e ∷ es) t {t'} w o h =
      let ((t₁, fx₁), first, rest) = >>=-eq-ok (step x t e) _ h in
      let ((t₂, fx₂), later, last) = >>=-eq-ok (run x es t₁) _ rest in
      let (o₁, le) = step-StaysInOrder t e (omega arith) o first in
      let same : t₂ ≡ t' = ground arith in
      let (o₂, le₂) = run-IsInOrder es t₁ (omega (arith, le)) o₁ later in
      subst (λ t'. IsInOrder x t' × (last_of x t' ≤ last_of x t + suc (length es))) same
        (o₂, omega (arith, le, le₂))

  -- The response time of a request is measured against its own send. A tenant whose requests wait in
  -- order comes to the turn that records a message which awaits a reply, with room in the queue,
  -- before the number of its messages outgrows 32 bits. Whatever then happens that is no reply, the
  -- first reply with the message's xid takes the request off the list with all before it and adds one
  -- sample for its kind, from the time read before the send to that of the reply; the requests sent
  -- in between go on waiting.
  pub run_reply-measures :
      (before after : List Event) (rd : Reading) (m : ScheduledMsg) (late : ℤ) (sent_at : Time)
      (t : Tenant x) {t₁ t₂ : Tenant x} {fx₁ fx₂ : List Effect} (type : ℕ) (msg : Text) (now : Time)
      (is_alive : Bool)
      → last_of x t + length before < 2 ^ 32
      → IsInOrder x t
      → run x before t ≡ ok (t₁, fx₁)
      → t₁.phase ≡ recording m late sent_at
      → m.awaits_reply ≡ true
      → (x.queue.try_enqueue t₁.controller.latency_stats.reply_waiting_list (entry_of m sent_at)).1
        ≡ true
      → run x (turns rd ∷ after) t₁ ≡ ok (t₂, fx₂)
      → All IsNoReply after
      → is_reply type ≡ true
      → x.fluid.xid_of msg ≡ m.of_msg.xid
      → (t₃ : Tenant x) × (later : List Sent) × (step x t₂ (message type msg now is_alive)
          ≡ ok (t₃, []))
        × (waiting_list x t₂ ≡ waiting_list x t₁ ++ entry_of m sent_at ∷ later)
        × (waiting_list x t₃ ≡ later)
        × (t₃.controller.latency_stats.stats_latency
            ≡ note x.acc (entry_of m sent_at) now t₂.controller.latency_stats.stats_latency)
  run_reply-measures before after rd m late sent_at t {t₁} type msg now is_alive w o h p awaits room
        h₂ quiet r e =
      let (o₁, le) = run-IsInOrder before t w o h in
      let (same, rises) = subst (λ p. InOrder p (last_of x t₁) (waiting_list x t₁)) p o₁ in
      reply-measures x rd m late sent_at t₁ after type msg now is_alive p awaits
        (omega (arith, same, le, w)) room
        (subst (λ n. Unused n (waiting_list x t₁)) (sym same)
          (Rises-Unused (waiting_list x t₁) (last_of x t₁) rises))
        quiet h₂ r e
