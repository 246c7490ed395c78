-- ===== src/Controller/Laws/Measured.antt =====
-- A reply is measured against its own request.
use mathlib.Core.Path.{subst}
use hvbench.Base.{
  ==_iff, ℕ, ◌^◌, ◌<◌, ◌==◌, ◌≡◌, refl, sym, ◌∙◌, ap, ◌⊎◌, inl, inr, Bool, true, Bool-cases, List,
  [], ◌∷◌, ◌++◌, arith, All, Text,
}
use mathlib.Core.List.{append_assoc}
use hvbench.Base.Int.{ℤ, to_i32, to_u32, to_u32-to_i32}
use hvbench.Base.Result.{ok, >>=-eq-ok}
use hvbench.Msg.{of_value}
use hvbench.Msg.Messages.{Time, ScheduledMsg}
use hvbench.Stats.Latency.{Sent, note, sent}
use hvbench.Stats.Latency.Loss.{Unused, IsWord, received_behind}
use hvbench.Controller.Defs.{Externals, Controller, message_callback, on_message, note_reply}
use hvbench.Controller.Run.{
  Tenant, recording, Reading, Effect, record_sent, turn, step, run, Event, turns, message,
}
use hvbench.Controller.Laws.Waiting.{
  is_reply, IsNoReply, entry_of, waiting_in, waiting_list, run-Extends,
}

reply-cases : (type : ℕ) → is_reply type ≡ true → (type ≡ 6) ⊎ ((type ≡ 3) ⊎ (type ≡ 17))
reply-cases type h = elim (Bool-cases (type == 6)) [
  | inl six ↦ inl (ground arith)
  | inr not_6 ↦ elim (Bool-cases (type == 3)) [
    | inl three ↦ inr (inl (ground arith))
    | inr not_3 ↦ inr (inr ((==_iff type 17).0 (rw (not_6, not_3) at h)))
  ]
]

module _ (x : Externals) where
  -- A reply goes to `received` with its xid.
  pub reply_lem :
      (type : ℕ) (msg : Text) (now : Time) (is_alive : Bool) (c : Controller x)
      → is_reply type ≡ true
      → (t : ℕ) × (message_callback x type msg now is_alive c
          ≡ note_reply x (x.fluid.xid_of msg) t now c)
  unfolding message_callback on_message of_value
  reply_lem type msg now is_alive c h = elim (reply-cases type h) [
    | inl e ↦ rw e (6, refl)
    | inr (inl e) ↦ rw e (3, refl)
    | inr (inr e) ↦ rw e (x.fluid.stats_type_of msg, refl)
  ]

  -- The turn that records a message which awaits a reply, while the queue has room.
  recording-waiting_list :
      (rd : Reading) (m : ScheduledMsg) (late : _) (now : Time) (t : Tenant x) {t' : Tenant x}
      {fx : List Effect}
      → t.phase ≡ recording m late now
      → m.awaits_reply ≡ true
      → (x.queue.try_enqueue t.controller.latency_stats.reply_waiting_list (entry_of m now)).1
        ≡ true
      → step x t (turns rd) ≡ ok (t', fx)
      → waiting_list x t' ≡ waiting_list x t ++ entry_of m now ∷ []
  unfolding step turn record_sent sent
  recording-waiting_list rd m late now t {t'} {fx} p awaits room h =
      let h' = subst (λ p. turn x p rd t ≡ ok (t', fx)) p h in
      let added =
        x.queue.enqueued t.controller.latency_stats.reply_waiting_list (entry_of m now) room in
      let same : record_sent x m late now t.controller ≡ t'.controller = ground arith in
      subst (λ c. waiting_in x c ≡ waiting_list x t ++ entry_of m now ∷ []) same (rw awaits added)

  -- A reply to a request that waits behind others with other xids.
  reply-Ends :
      (type : ℕ) (msg : Text) (now : Time) (is_alive : Bool) (t : Tenant x) (m : Sent)
      (pre suf : List Sent)
      → is_reply type ≡ true
      → x.fluid.xid_of msg ≡ m.xid
      → IsWord m
      → waiting_list x t ≡ pre ++ m ∷ suf
      → Unused m.xid pre
      → (t' : Tenant x) × (step x t (message type msg now is_alive) ≡ ok (t', []))
        × (waiting_list x t' ≡ suf)
        × (t'.controller.latency_stats.stats_latency
            ≡ note x.acc m now t.controller.latency_stats.stats_latency)
  unfolding step note_reply
  reply-Ends type msg now is_alive t m pre suf r e w at u =
      let (k, handled) = reply_lem type msg now is_alive t.controller r in
      let (s, done, left, noted) =
        received_behind x.queue x.acc t.controller.latency_stats m pre suf k now w at u in
      (
        record t { controller = record t.controller { latency_stats = s } },
        rw (handled, e, note_reply, done) refl,
        left,
        noted,
      )

  -- The response time of a request is measured against its own send: after the turn that records the
  -- message, with room in the queue and no other request of its xid waiting, whatever happens that is
  -- no reply, the reply with the xid takes the request off the list with all before it, and adds one
  -- sample for its kind, from the time read before the send to that of the reply. The requests sent in
  -- between go on waiting.
  pub reply-measures :
      (rd : Reading) (m : ScheduledMsg) (late : ℤ) (sent_at : Time) (t : Tenant x) (es : List Event)
      {t₁ : Tenant x} {fx : List Effect} (type : ℕ) (msg : Text) (now : Time) (is_alive : Bool)
      → t.phase ≡ recording m late sent_at
      → m.awaits_reply ≡ true
      → m.of_msg.xid < 2 ^ 32
      → (x.queue.try_enqueue t.controller.latency_stats.reply_waiting_list (entry_of m sent_at)).1
        ≡ true
      → Unused m.of_msg.xid (waiting_list x t)
      → All IsNoReply es
      → run x (turns rd ∷ es) t ≡ ok (t₁, fx)
      → is_reply type ≡ true
      → x.fluid.xid_of msg ≡ m.of_msg.xid
      → (t₂ : Tenant x) × (later : List Sent) × (step x t₁ (message type msg now is_alive)
          ≡ ok (t₂, []))
        × (waiting_list x t₁ ≡ waiting_list x t ++ entry_of m sent_at ∷ later)
        × (waiting_list x t₂ ≡ later)
        × (t₂.controller.latency_stats.stats_latency
            ≡ note x.acc (entry_of m sent_at) now t₁.controller.latency_stats.stats_latency)
  unfolding run
  reply-measures rd m late sent_at t es {t₁} {fx} type msg now is_alive p awaits w room u quiet h r
        e =
      let ((t', fx'), first, rest) = >>=-eq-ok (step x t (turns rd)) _ h in
      let ((t'', fx''), then_, last) = >>=-eq-ok (run x es t') _ rest in
      let same : t'' ≡ t₁ = ground arith in
      let put = recording-waiting_list rd m late sent_at t p awaits room first in
      let (later, grown) = run-Extends x es t' quiet then_ in
      let xid : to_u32 (to_i32 m.of_msg.xid) ≡ m.of_msg.xid =
        omega (arith, to_u32-to_i32 m.of_msg.xid) in
      let all : waiting_list x t₁ ≡ waiting_list x t ++ entry_of m sent_at ∷ later =
        sym (ap (waiting_list x) same)
        ∙ grown
        ∙ ap (λ ms. ms ++ later) put
        ∙ append_assoc (waiting_list x t) (entry_of m sent_at ∷ []) later in
      let (t₂, done, left, noted) =
        reply-Ends type msg now is_alive t₁ (entry_of m sent_at) (waiting_list x t) later r
          (e ∙ sym xid) (rw xid w) all (rw xid u) in
      (t₂, later, done, all, left, noted)
