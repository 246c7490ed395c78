-- ===== src/Controller/Laws/Sending.antt =====
-- When a message goes out, and that each generated message is counted once.
use mathlib.Core.Path.{subst}
use mathlib.Core.List.{append-nil}
use hvbench.Base.{
  ℕ, ◌+◌, ◌%◌, ◌^◌, ◌≤◌, ◌<◌, ◌≡◌, refl, ◌∙◌, ◌⊎◌, inl, inr, Bool-cases, List, [], ◌∷◌, arith, All,
  if◌then◌else◌, ◌=?◌,
}
use hvbench.Base.Int.{sub_ℕ}
use hvbench.Base.Result.{ok, >>=-eq-ok}
use hvbench.Base.Dict.{get_or, get_or-insert}
use hvbench.Msg.{Ofpt, ofpt_key, ofpt_eqb_iff}
use hvbench.Msg.Messages.{ScheduledMsg}
use hvbench.Generator.Abstract.Laws.{get_or-count}
use hvbench.Generator.Dispatch.{next, update}
use hvbench.Generator.Dispatch.Laws.{base_of, next_base, update-base}
use hvbench.Controller.Defs.{Externals, setup_switch, message_callback, stop}
use hvbench.Controller.Run.{
  Tenant, Phase, awaiting_switch, setting_up, fetching, waiting, recording, finished, Reading,
  Effect, record_sent, turn, step, run, Event, turns, connection, message, stops, updates, studies,
}
use hvbench.Controller.Laws.Steps.{
  IsReport, report_lem, try_send_lem, turn_parts, connection_callback_lem, message_callback-Keeps,
  set_time_reference_lem,
}

-- The kind of the message at hand, between the generator and the counters.
abbrev pub pending : Ofpt → Phase → ℕ
pending k (waiting m) = if m.of_msg.type =? k then 1 else 0
pending k (recording m late now) = if m.of_msg.type =? k then 1 else 0
pending k _ = 0

module _ (x : Externals) where
  -- A message never goes out before its time: as long as the clock reads an earlier time, a turn
  -- leaves the message waiting and sends nothing to the switch, and a turn at its time or later
  -- takes it off, with the delay measured from its time.
  pub turn-waiting :
      (rd : Reading) (m : ScheduledMsg) (t : Tenant x) {t' : Tenant x} {fx : List Effect}
      → t.phase ≡ waiting m
      → step x t (turns rd) ≡ ok (t', fx)
      → ((rd.now < m.time_ns) × (t'.phase ≡ waiting m) × All IsReport fx)
        ⊎ ((m.time_ns ≤ rd.now)
            × (t'.phase ≡ recording m (sub_ℕ rd.send_now m.time_ns) rd.send_now))
  unfolding step
  turn-waiting rd m t {t'} {fx} e h =
      let (t₁, reported, bytes, first, second, all) =
        turn_parts x rd m t {t' = t'} {fx = fx} (subst (λ p. turn x p rd t ≡ ok (t', fx)) e h) in
      let (kept, _, only, _) = report_lem x rd t first in
      let (sent, _, _) = try_send_lem x rd m t₁ (kept ∙ e) second in
      ground (arith, append-nil reported)

  -- Of each kind, as many messages are counted as sent, with the one at hand, as the generator has
  -- counted, modulo 2^32, where the generator's counters wrap.
  abbrev pub Balanced : Tenant x → Type 0
  Balanced t =
      (k : Ofpt)
      → (get_or k 0 t.controller.counters + pending k t.phase) % 2 ^ 32
        ≡ get_or k 0 (base_of x.random t.generator).counters % 2 ^ 32

  turn-Balanced :
      (p : Phase) (rd : Reading) (t : Tenant x) {t' : Tenant x} {fx : List Effect}
      → t.phase ≡ p
      → turn x p rd t ≡ ok (t', fx)
      → Balanced t
      → Balanced t'
  unfolding turn record_sent
  turn-Balanced awaiting_switch rd t e h b k = ground (arith, b k)
  turn-Balanced setting_up rd t e h b k =
      let (bytes, _, last) = >>=-eq-ok (setup_switch x rd.is_alive t.controller) _ h in
      ground (arith, b k, set_time_reference_lem x rd.now t.generator)
  turn-Balanced fetching rd t e h b k = elim (Bool-cases t.controller.running) [
    | inl up ↦
        let ((m, g), got, last) =
          >>=-eq-ok (next x.random x.fluid t.generator) _ (rw (up, turn) at h) in
        let (counted, _, _) = next_base x.random x.fluid t.generator got in
        ground (arith, b k, get_or-count k (base_of x.random t.generator) m)
    | inr down ↦ let last = rw (down, turn) at h in ground (arith, b k)
  ]
  turn-Balanced (waiting m) rd t e h b k =
      let (t₁, _, _, first, second, _) = turn_parts x rd m t h in
      let (kept, same, _, keeps) = report_lem x rd t first in
      let (sent, same', counted) = try_send_lem x rd m t₁ (kept ∙ e) second in ground (arith, b k)
  turn-Balanced (recording m late now) rd t e h b k =
      let c = t.controller in
      let n = get_or m.of_msg.type 0 c.counters in
      ground (
        arith,
        b k,
        ofpt_eqb_iff m.of_msg.type k,
        get_or-insert m.of_msg.type k ((n + 1) % 2 ^ 64) 0 c.counters,
      )
  turn-Balanced finished rd t e h b k = ground (arith, b k)

  step-Balanced :
      (t : Tenant x) (e : Event) {t' : Tenant x} {fx : List Effect}
      → step x t e ≡ ok (t', fx)
      → Balanced t
      → Balanced t'
  unfolding step stop
  step-Balanced t (turns rd) h b k = turn-Balanced t.phase rd t refl h b k
  step-Balanced t (connection id e) h b k =
      ground (arith, b k, connection_callback_lem x id e t.controller)
  step-Balanced t (message type msg now is_alive) h b k =
      let ((c, bytes), got, rest) =
        >>=-eq-ok (message_callback x type msg now is_alive t.controller) _ h in
      let kept = message_callback-Keeps x type msg now is_alive t.controller got in
      ground (arith, b k)
  step-Balanced t stops h b k = ground (arith, b k)
  step-Balanced t (studies study_id run_id) h b k = ground (arith, b k)
  step-Balanced t (updates key value) h b k =
      let (g, new, last) = >>=-eq-ok (update x.random x.boost key value t.generator) _ h in
      let same = update-base x.random x.boost key value t.generator new in ground (arith, b k)

  -- No interleaving loses a generated message or counts one twice: the balance between the
  -- generator's counters and those of the messages sent is kept by every history of events.
  pub run-Balanced :
      (es : List Event) (t : Tenant x) {t' : Tenant x} {fx : List Effect}
      → Balanced t
      → run x es t ≡ ok (t', fx)
      → Balanced t'
  unfolding run
  run-Balanced [] t {t'} b h = let same : t ≡ t' = ground arith in subst Balanced same b
  run-Balanced (e ∷ es) t {t'} b h =
      let ((t₁, fx₁), first, rest) = >>=-eq-ok (step x t e) _ h in
      let ((t₂, fx₂), later, last) = >>=-eq-ok (run x es t₁) _ rest in
      let same : t₂ ≡ t' = ground arith in
      subst Balanced same (run-Balanced es t₁ (step-Balanced t e first b) later)
