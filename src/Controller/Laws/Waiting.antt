-- ===== src/Controller/Laws/Waiting.antt =====
-- The requests that wait for a reply, over a history of events.
use mathlib.Core.Path.{subst}
use mathlib.Core.List.{append-nil, append_assoc}
use hvbench.Base.{
  ℕ, ◌==◌, ◌≡◌, refl, sym, ◌∙◌, ap, ◌⊎◌, inl, inr, Bool, false, Bool-cases, ◌||◌, List, [], ◌∷◌,
  ◌++◌, arith, All,
}
use hvbench.Base.Int.{to_i32, to_u32}
use hvbench.Base.Result.{ok, >>=-eq-ok}
use hvbench.Msg.Messages.{Time, ScheduledMsg}
use hvbench.Conn.{send}
use hvbench.Stats.Collector
use hvbench.Stats.Latency.{Sent, LatencyStats, reset, sent}
use hvbench.Generator.Dispatch.{next, update}
use hvbench.Controller.Defs.{
  Externals, Controller, ConnEvent, event_established, connection_callback, setup_switch, stop,
}
use hvbench.Controller.Run.{
  Tenant, Phase, awaiting_switch, setting_up, fetching, waiting, recording, finished, Reading,
  Effect, accept, report, try_send, record_sent, turn, step, run, Event, turns, connection, message,
  stops, updates, studies,
}
use hvbench.Controller.Laws.Steps.{accept-Keeps, turn_parts}
use hvbench.Controller.Laws.Connection.{message_callback_lem}

-- The types of the replies that `message_callback` measures.
abbrev pub is_reply : ℕ → Bool
is_reply type = (type == 6) || (type == 3) || (type == 17)

-- What comes in between a request and its reply: anything but a reply.
abbrev pub IsNoReply : Event → Type 0
IsNoReply (message type msg now is_alive) = is_reply type ≡ false
IsNoReply _ = Unit {0}

-- What is put on the waiting list for a message.
abbrev pub entry_of : ScheduledMsg → Time → Sent
entry_of m now = record { xid = to_u32 (to_i32 m.of_msg.xid); type = m.of_msg.type; tp = now }

module _ (x : Externals) where
  abbrev pub waiting_in : Controller x → List Sent
  waiting_in c = x.queue.contents c.latency_stats.reply_waiting_list

  abbrev pub waiting_list : Tenant x → List Sent
  waiting_list t = waiting_in t.controller

  report-waiting_list :
      (rd : Reading) (t : Tenant x) {t' : Tenant x} {fx : List Effect}
      → report x rd t ≡ ok (t', fx)
      → waiting_list t' ≡ waiting_list t
  unfolding report reset
  report-waiting_list rd t h = elim (Bool-cases (t.last_stat_time == rd.ux_time)) [
    | inl e ↦ let same = rw (e, report) at h in ground arith
    | inr e ↦
        let ((col, c), got, rest) =
          >>=-eq-ok (accept x rd t.controller Collector.create) _ (rw (e, report) at h) in
        let (_, cleared) = accept-Keeps x rd t.controller Collector.create got in
        let kept =
          ap (λ (s : LatencyStats x.queue x.acc). x.queue.contents s.reply_waiting_list) cleared in
        ground arith
  ]

  try_send-waiting_list :
      (rd : Reading) (m : ScheduledMsg) (t : Tenant x) {t' : Tenant x} {fx : List Effect}
      → try_send x rd m t ≡ ok (t', fx)
      → waiting_list t' ≡ waiting_list t
  unfolding try_send send
  try_send-waiting_list rd m t h = ground arith

  -- The waiting list is left alone, or the message that was just sent is put behind it.
  abbrev pub Queues : Phase → List Sent → List Sent → Type 0
  Queues (recording m late now) ms ms' = (ms' ≡ ms) ⊎ (ms' ≡ ms ++ entry_of m now ∷ [])
  Queues _ ms ms' = ms' ≡ ms

  record_sent-Queues :
      (m : ScheduledMsg) (late : _) (now : Time) (c : Controller x)
      → Queues (recording m late now) (waiting_in c) (waiting_in (record_sent x m late now c))
  unfolding record_sent sent
  record_sent-Queues m late now c = elim (Bool-cases m.awaits_reply) [
    | inl awaits ↦
        let q = c.latency_stats.reply_waiting_list in
        elim (Bool-cases (x.queue.try_enqueue q (entry_of m now)).1) [
          | inl room ↦ inr (rw awaits (x.queue.enqueued q (entry_of m now) room))
          | inr full ↦ inl (rw awaits (x.queue.refused q (entry_of m now) full))
        ]
    | inr silent ↦ inl (rw silent refl)
  ]

  pub turn-Queues :
      (p : Phase) (rd : Reading) (t : Tenant x) {t' : Tenant x} {fx : List Effect}
      → turn x p rd t ≡ ok (t', fx)
      → Queues p (waiting_list t) (waiting_list t')
  unfolding turn
  turn-Queues awaiting_switch rd t h = ground arith
  turn-Queues setting_up rd t h =
      let (bytes, _, last) = >>=-eq-ok (setup_switch x rd.is_alive t.controller) _ h in ground arith
  turn-Queues fetching rd t h = elim (Bool-cases t.controller.running) [
    | inl up ↦
        let ((m, g), got, last) =
          >>=-eq-ok (next x.random x.fluid t.generator) _ (rw (up, turn) at h) in
        ground arith
    | inr down ↦ let last = rw (down, turn) at h in ground arith
  ]
  turn-Queues (waiting m) rd t h =
      let (t₁, _, _, first, second, _) = turn_parts x rd m t h in
      try_send-waiting_list rd m t₁ second ∙ report-waiting_list rd t first
  turn-Queues (recording m late now) rd t {t'} h =
      let same : record_sent x m late now t.controller ≡ t'.controller = ground arith in
      subst (λ c. Queues (recording m late now) (waiting_list t) (waiting_in c)) same
        (record_sent-Queues m late now t.controller)
  turn-Queues finished rd t h = ground arith

  -- Requests are only added, behind those that wait.
  abbrev pub Extends : Tenant x → Tenant x → Type 0
  Extends t t' = (suf : List Sent) × (waiting_list t' ≡ waiting_list t ++ suf)

  same-Extends : (t t' : Tenant x) → waiting_list t' ≡ waiting_list t → Extends t t'
  same-Extends t t' e = ([], e ∙ sym (append-nil (waiting_list t)))

  Queues-Extends :
      (p : Phase) (t t' : Tenant x) → Queues p (waiting_list t) (waiting_list t') → Extends t t'
  Queues-Extends (recording m late now) t t' (inl e) = same-Extends t t' e
  Queues-Extends (recording m late now) t t' (inr e) = (entry_of m now ∷ [], e)
  Queues-Extends awaiting_switch t t' e = same-Extends t t' e
  Queues-Extends setting_up t t' e = same-Extends t t' e
  Queues-Extends fetching t t' e = same-Extends t t' e
  Queues-Extends (waiting m) t t' e = same-Extends t t' e
  Queues-Extends finished t t' e = same-Extends t t' e

  pub connection_callback-stats :
      (id : ℕ) (e : ConnEvent) (c : Controller x)
      → (connection_callback x id e c).latency_stats ≡ c.latency_stats
  unfolding connection_callback
  connection_callback-stats id event_established c = ground arith
  connection_callback-stats id _ c = refl

  -- A step that is no reply and no turn leaves the response times alone.
  pub step-stats :
      (t : Tenant x) (e : Event) {t' : Tenant x} {fx : List Effect}
      → IsNoReply e
      → step x t e ≡ ok (t', fx)
      → ((rd : Reading) × (e ≡ turns rd))
        ⊎ (t'.controller.latency_stats ≡ t.controller.latency_stats)
  unfolding step stop
  step-stats t (turns rd) a h = inl (rd, refl)
  step-stats t (connection id e) a h =
      let same = connection_callback-stats id e t.controller in inr (ground arith)
  step-stats t (message type msg now is_alive) a h =
      let (s, done, or_same) = message_callback_lem x type msg now is_alive t.controller in
      elim or_same [
        | inl (reply, _) ↦ absurd (cc)
        | inr (_, same) ↦ let last = rw done at h in inr (ground arith)
      ]
  step-stats t stops a h = inr (ground arith)
  step-stats t (updates key value) a h =
      let (g, _, last) = >>=-eq-ok (update x.random x.boost key value t.generator) _ h in
      inr (ground arith)
  step-stats t (studies study_id run_id) a h = inr (ground arith)

  step-Extends :
      (t : Tenant x) (e : Event) {t' : Tenant x} {fx : List Effect}
      → IsNoReply e
      → step x t e ≡ ok (t', fx)
      → Extends t t'
  unfolding step
  step-Extends t (turns rd) {t'} a h = Queues-Extends t.phase t t' (turn-Queues t.phase rd t h)
  step-Extends t e {t'} a h = elim (step-stats t e a h) [
    | inl (rd, is_turn) ↦ absurd (cc)
    | inr same ↦
        same-Extends t t'
          (ap (λ (s : LatencyStats x.queue x.acc). x.queue.contents s.reply_waiting_list) same)
  ]

  -- Over a history without replies, requests are only added behind those that wait.
  pub run-Extends :
      (es : List Event) (t : Tenant x) {t' : Tenant x} {fx : List Effect}
      → All IsNoReply es
      → run x es t ≡ ok (t', fx)
      → Extends t t'
  unfolding run
  run-Extends [] t {t'} a h =
      let same : t ≡ t' = ground arith in same-Extends t t' (sym (ap waiting_list same))
  run-Extends (e ∷ es) t {t'} a h =
      let ((t₁, fx₁), first, rest) = >>=-eq-ok (step x t e) _ h in
      let ((t₂, fx₂), later, last) = >>=-eq-ok (run x es t₁) _ rest in
      let (s₁, e₁) = step-Extends t e a.0 first in
      let (s₂, e₂) = run-Extends es t₁ a.1 later in
      let same : t₂ ≡ t' = ground arith in
      (
        s₁ ++ s₂,
        sym (ap waiting_list same)
            ∙ e₂
            ∙ ap (λ ms. ms ++ s₂) e₁
            ∙ append_assoc (waiting_list t) s₁ s₂,
      )
