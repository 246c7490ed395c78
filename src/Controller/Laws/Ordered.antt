-- ===== src/Controller/Laws/Ordered.antt =====
-- A turn keeps the waiting requests in the order of their xids.
use hvbench.Base.{
  ℕ, suc, ◌+◌, ◌%◌, ◌^◌, ◌≤◌, ◌<◌, ◌≡◌, sym, ◌∙◌, ap, ◌⊎◌, inl, inr, Bool-cases, List, arith,
}
use hvbench.Base.Int.{ℤ}
use hvbench.Base.Result.{ok, >>=-eq-ok}
use hvbench.Msg.Messages.{Time, ScheduledMsg}
use hvbench.Stats.Latency.{Sent}
use hvbench.Generator.Dispatch.{next}
use hvbench.Generator.Dispatch.Numbered.{last_xid, next-last_xid, set_time_reference-last_xid}
use hvbench.Controller.Defs.{Externals, setup_switch}
use hvbench.Controller.Run.{
  Tenant, Phase, awaiting_switch, setting_up, fetching, waiting, recording, finished, Reading,
  Effect, turn,
}
use hvbench.Controller.Laws.Steps.{report_lem, try_send_lem, turn_parts}
use hvbench.Controller.Laws.Waiting.{waiting_list, turn-Queues}
use hvbench.Controller.Laws.Rising.{Rises-raise, InOrder, recording-Rises}

module _ (x : Externals) where
  abbrev pub last_of : Tenant x → ℕ
  last_of t = last_xid x.random t.generator

  abbrev pub IsInOrder : Tenant x → Type 0
  IsInOrder t = InOrder t.phase (last_of t) (waiting_list x t)

  -- A step from a number of the last message: it takes at most one more.
  abbrev pub StaysInOrder : ℕ → Tenant x → Type 0
  StaysInOrder n t = IsInOrder t × (last_of t ≤ n + 1)

  -- A tenant in a given phase, with a given number and list.
  pub stays :
      (t : Tenant x) (p : Phase) (n k : ℕ) (ms : List Sent)
      → t.phase ≡ p
      → last_of t ≡ n
      → waiting_list x t ≡ ms
      → n ≤ k + 1
      → InOrder p n ms
      → StaysInOrder k t
  stays t p n k ms ep en em le o = (rw (ep, en, em) o, omega (arith, en, le))

  -- The message that the generator makes has the number that follows that of the last.
  fetching_lem :
      (rd : Reading) (t : Tenant x) {t' : Tenant x} {fx : List Effect}
      → turn x fetching rd t ≡ ok (t', fx)
      → ((t'.phase ≡ finished) × (last_of t' ≡ last_of t))
        ⊎ ((m : ScheduledMsg) × (t'.phase ≡ waiting m)
            × (m.of_msg.xid ≡ last_of t')
            × (last_of t' ≡ (last_of t + 1) % 2 ^ 32))
  unfolding turn
  fetching_lem rd t h = elim (Bool-cases t.controller.running) [
    | inl up ↦
        let ((m, g), got, last) =
          >>=-eq-ok (next x.random x.fluid t.generator) _ (rw (up, turn) at h) in
        let (number, kept) = next-last_xid x.random x.fluid t.generator got in
        inr (m, ground arith, ground arith, ground arith)
    | inr down ↦ let last = rw (down, turn) at h in inl (ground arith)
  ]

  awaiting_switch_lem :
      (rd : Reading) (t : Tenant x) {t' : Tenant x} {fx : List Effect}
      → t.phase ≡ awaiting_switch
      → turn x awaiting_switch rd t ≡ ok (t', fx)
      → (t'.generator ≡ t.generator) × ((t'.phase ≡ awaiting_switch) ⊎ (t'.phase ≡ setting_up))
  unfolding turn
  awaiting_switch_lem rd t e h = ground arith

  setting_up_lem :
      (rd : Reading) (t : Tenant x) {t' : Tenant x} {fx : List Effect}
      → turn x setting_up rd t ≡ ok (t', fx)
      → (t'.phase ≡ fetching) × (last_of t' ≡ last_of t)
  unfolding turn
  setting_up_lem rd t h =
      let (bytes, _, last) = >>=-eq-ok (setup_switch x rd.is_alive t.controller) _ h in
      let same = set_time_reference-last_xid x.random rd.now t.generator in ground arith

  recording_lem :
      (m : ScheduledMsg) (late : ℤ) (now : Time) (rd : Reading) (t : Tenant x) {t' : Tenant x}
      {fx : List Effect}
      → turn x (recording m late now) rd t ≡ ok (t', fx)
      → (t'.phase ≡ fetching) × (t'.generator ≡ t.generator)
  unfolding turn
  recording_lem m late now rd t h = (ground arith, ground arith)

  finished_lem :
      (rd : Reading) (t : Tenant x) {t' : Tenant x} {fx : List Effect}
      → turn x finished rd t ≡ ok (t', fx)
      → t ≡ t'
  unfolding turn
  finished_lem rd t h = ground arith

  pub turn-StaysInOrder :
      (p : Phase) (rd : Reading) (t : Tenant x) {t' : Tenant x} {fx : List Effect}
      → last_of t + 1 < 2 ^ 32
      → InOrder p (last_of t) (waiting_list x t)
      → t.phase ≡ p
      → turn x p rd t ≡ ok (t', fx)
      → StaysInOrder (last_of t) t'
  turn-StaysInOrder awaiting_switch rd t {t'} w o e h =
      let (g, ends) = awaiting_switch_lem rd t e h in
      let same = ap (last_xid x.random) g in
      let kept = turn-Queues x awaiting_switch rd t h in
      elim ends [
        | inl p ↦ stays t' _ _ (last_of t) _ p same kept (omega arith) o
        | inr p ↦ stays t' _ _ (last_of t) _ p same kept (omega arith) o
      ]
  turn-StaysInOrder setting_up rd t {t'} w o e h =
      let (p, same) = setting_up_lem rd t h in
      stays t' _ _ (last_of t) _ p same (turn-Queues x setting_up rd t h) (omega arith) o
  turn-StaysInOrder fetching rd t {t'} w o e h =
      let kept = turn-Queues x fetching rd t h in
      elim (fetching_lem rd t h) [
        | inl (p, same) ↦ stays t' _ _ (last_of t) _ p same kept (omega arith) o
        | inr (m, p, number, next_) ↦
            let one_more : last_of t' ≡ suc (last_of t) = omega (arith, next_, w) in
            stays t' _ _ (last_of t) _ p one_more kept (omega arith) (number ∙ one_more, o)
      ]
  turn-StaysInOrder (waiting m) rd t {t'} w o e h =
      let (t₁, _, _, first, second, _) = turn_parts x rd m t h in
      let (p₁, g₁, _, _) = report_lem x rd t first in
      let (ends, g₂, _) = try_send_lem x rd m t₁ (p₁ ∙ e) second in
      let same = ap (last_xid x.random) (g₂ ∙ g₁) in
      let kept = turn-Queues x (waiting m) rd t h in
      elim ends [
        | inl (_, p, _) ↦ stays t' _ _ (last_of t) _ p same kept (omega arith) o
        | inr (_, p) ↦ stays t' _ _ (last_of t) _ p same kept (omega arith) o
      ]
  turn-StaysInOrder (recording m late now) rd t {t'} w o e h =
      let (p, g) = recording_lem m late now rd t h in
      let same = ap (last_xid x.random) g in
      elim (turn-Queues x (recording m late now) rd t h) [
        | inl kept ↦
            stays t' _ _ (last_of t) _ p same kept (omega arith)
              (Rises-raise (waiting_list x t) (omega arith) o.1)
        | inr grown ↦
            stays t' _ _ (last_of t) _ p same grown (omega arith)
              (recording-Rises m now (last_of t) (waiting_list x t) o.0 (omega arith) o.1)
      ]
  turn-StaysInOrder finished rd t {t'} w o e h =
      let same = finished_lem rd t h in
      stays t' _ _ (last_of t) _ (sym (ap (λ (t : Tenant x). t.phase) same) ∙ e)
        (sym (ap last_of same)) (turn-Queues x finished rd t h) (omega arith) o
