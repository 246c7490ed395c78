-- ===== src/Controller/Laws/Stopping.antt =====
-- After `stop` the sending thread ends, if its switch has come.
use mathlib.Core.Path.{subst}
use hvbench.Base.{
  ℕ, suc, ◌+◌, ◌-◌, ◌≤◌, ◌≡◌, refl, sym, ◌∙◌, true, false, inl, inr, List, [], ◌∷◌, ◌++◌, arith,
  All,
}
use hvbench.Base.Int.{sub_ℕ}
use hvbench.Base.Result.{ok, >>=-eq-ok}
use hvbench.Msg.Messages.{Time, ScheduledMsg}
use hvbench.Generator.Dispatch.{update}
use hvbench.Controller.Defs.{Externals, message_callback, setup_switch, stop}
use hvbench.Controller.Run.{
  Tenant, Phase, awaiting_switch, setting_up, fetching, waiting, recording, finished, Reading,
  Effect, try_send, record_sent, turn, step, run, Event, turns, connection, message, stops, updates,
  studies,
}
use hvbench.Controller.Laws.Steps.{report_lem, try_send_lem, turn_parts, message_callback-Keeps}
use hvbench.Controller.Laws.Ready.{IsSound}
use hvbench.Controller.Laws.Progress.{IsAccepted, step_total, connection_callback-cases}

-- How many turns a thread that is told to stop takes at most from here.
unfoldable pub rank : Phase → ℕ
rank awaiting_switch = 3
rank setting_up = 2
rank fetching = 1
rank (waiting m) = 3
rank (recording m late now) = 2
rank finished = 0

rank_zero : (p : Phase) → rank p ≤ 0 → p ≡ finished
unfolding rank
rank_zero finished h = refl
rank_zero _ h = absurd (omega arith)

-- The message at hand is due by a time.
abbrev pub DueBy : Time → Phase → Type 0
DueBy T (waiting m) = m.time_ns ≤ T
DueBy T _ = Unit {0}

-- The turns of a history.
abbrev pub turns_in : List Event → ℕ
turns_in [] = 0
turns_in (turns rd ∷ es) = suc (turns_in es)
turns_in (_ ∷ es) = turns_in es

-- A turn at a time or later.
abbrev pub IsAfter : Time → Event → Type 0
IsAfter T (turns rd) = T ≤ rd.now
IsAfter T _ = Unit {0}

module _ (x : Externals) where
  -- `stop` has been called, the switch has come, and the message at hand is due.
  pub record IsStopping (T : Time) (t : Tenant x) : Type 0 where
    pub stopped : t.controller.running ≡ false
    pub up : t.controller.switch_up ≡ true
    pub due : DueBy T t.phase

  try_send_flags :
      (rd : Reading) (m : ScheduledMsg) (t : Tenant x) {t' : Tenant x} {fx : List Effect}
      → try_send x rd m t ≡ ok (t', fx)
      → (t'.controller.running ≡ t.controller.running)
        × (t'.controller.switch_up ≡ t.controller.switch_up)
  unfolding try_send
  try_send_flags rd m t h = ground arith

  -- A step of a thread that stops: one more turn is behind it.
  abbrev Falls : Time → ℕ → Phase → Tenant x → Type 0
  Falls T n p t' = IsStopping T t' × (rank t'.phase ≤ rank p - n)

  at_phase :
      (T : Time) (n : ℕ) (p p' : Phase) (t' : Tenant x)
      → t'.phase ≡ p'
      → t'.controller.running ≡ false
      → t'.controller.switch_up ≡ true
      → DueBy T p'
      → rank p' ≤ rank p - n
      → Falls T n p t'
  at_phase T n p p' t' e stopped up due less = (
    record { stopped = stopped; up = up; due = subst (DueBy T) (sym e) due },
    subst (λ q. rank q ≤ rank p - n) (sym e) less,
  )

  turn-Falls :
      (T : Time) (p : Phase) (rd : Reading) (t : Tenant x) {t' : Tenant x} {fx : List Effect}
      → t.phase ≡ p
      → turn x p rd t ≡ ok (t', fx)
      → T ≤ rd.now
      → t.controller.running ≡ false
      → t.controller.switch_up ≡ true
      → DueBy T p
      → Falls T 1 p t'
  unfolding turn record_sent rank
  turn-Falls T awaiting_switch rd t {t'} e h after stopped up due =
      at_phase T 1 awaiting_switch setting_up t' (ground arith) (ground arith) (ground arith) tt
        (omega arith)
  turn-Falls T setting_up rd t {t'} e h after stopped up due =
      let (bytes, _, last) = >>=-eq-ok (setup_switch x rd.is_alive t.controller) _ h in
      at_phase T 1 setting_up fetching t' (ground arith) (ground arith) (ground arith) tt
        (omega arith)
  turn-Falls T fetching rd t {t'} e h after stopped up due =
      at_phase T 1 fetching finished t' (ground arith) (ground arith) (ground arith) tt
        (omega arith)
  turn-Falls T (waiting m) rd t {t'} e h after stopped up due =
      let (t₁, _, _, first, second, _) = turn_parts x rd m t h in
      let (phase, _, _, keeps) = report_lem x rd t first in
      let (running, switch_up) = try_send_flags rd m t₁ second in
      let (sent, _, _) = try_send_lem x rd m t₁ (phase ∙ e) second in
      let goes : t'.phase ≡ recording m (sub_ℕ rd.send_now m.time_ns) rd.send_now = elim sent [
        | inl (early, _, _) ↦ absurd (omega arith)
        | inr (_, goes) ↦ goes
      ] in
      at_phase T 1 (waiting m) (recording m (sub_ℕ rd.send_now m.time_ns) rd.send_now) t' goes
        (running ∙ keeps.running ∙ stopped) (switch_up ∙ keeps.switch_up ∙ up) tt (omega arith)
  turn-Falls T (recording m late now) rd t {t'} e h after stopped up due =
      at_phase T 1 (recording m late now) fetching t' (ground arith) (ground arith) (ground arith)
        tt (omega arith)
  turn-Falls T finished rd t {t'} e h after stopped up due =
      at_phase T 1 finished finished t' (ground arith) (ground arith) (ground arith) tt
        (omega arith)

  step-Falls :
      (T : Time) (t : Tenant x) (e : Event) {t' : Tenant x} {fx : List Effect}
      → step x t e ≡ ok (t', fx)
      → IsAfter T e
      → IsStopping T t
      → Falls T (turns_in (e ∷ [])) t.phase t'
  unfolding step stop
  step-Falls T t (turns rd) h after s = turn-Falls T t.phase rd t refl h after s.stopped s.up s.due
  step-Falls T t (connection id e) {t'} h after s =
      elim (connection_callback-cases x id e t.controller) [
        | inl same ↦
            at_phase T 0 t.phase t.phase t' (ground arith) (ground (arith, s.stopped))
              (ground (arith, s.up)) s.due (omega arith)
        | inr linked ↦
            at_phase T 0 t.phase t.phase t' (ground arith) (ground (arith, s.stopped))
              (ground arith) s.due (omega arith)
      ]
  step-Falls T t (message type msg now is_alive) {t'} h after s =
      let ((c, bytes), got, rest) =
        >>=-eq-ok (message_callback x type msg now is_alive t.controller) _ h in
      let kept = message_callback-Keeps x type msg now is_alive t.controller got in
      at_phase T 0 t.phase t.phase t' (ground arith) (ground (arith, kept.running, s.stopped))
        (ground (arith, kept.switch_up, s.up)) s.due (omega arith)
  step-Falls T t (studies study_id run_id) {t'} h after s =
      at_phase T 0 t.phase t.phase t' (ground arith) (ground (arith, s.stopped))
        (ground (arith, s.up)) s.due (omega arith)
  step-Falls T t stops {t'} h after s =
      at_phase T 0 t.phase t.phase t' (ground arith) (ground arith) (ground (arith, s.up)) s.due
        (omega arith)
  step-Falls T t (updates key value) {t'} h after s =
      let (g, new, last) = >>=-eq-ok (update x.random x.boost key value t.generator) _ h in
      at_phase T 0 t.phase t.phase t' (ground arith) (ground (arith, s.stopped))
        (ground (arith, s.up)) s.due (omega arith)

  turns_in_cons :
      (e : Event) (es : List Event) → turns_in (e ∷ es) ≡ turns_in (e ∷ []) + turns_in es
  turns_in_cons (turns rd) es = omega arith
  turns_in_cons _ es = omega arith

  run-Falls :
      (T : Time) (es : List Event) (t : Tenant x)
      → All (IsAccepted x) es
      → All (IsAfter T) es
      → IsSound x t
      → IsStopping T t
      → (t' : Tenant x) × (fx : List Effect) × (run x es t ≡ ok (t', fx))
        × (rank t'.phase ≤ rank t.phase - turns_in es)
  unfolding run
  run-Falls T [] t a after sound s = (t, [], refl, omega arith)
  run-Falls T (e ∷ es) t a after sound s =
      let (t₁, fx, first, sound₁) = step_total x t e a.0 sound in
      let (stopping, less) = step-Falls T t e first after.0 s in
      let (t₂, fx₂, later, done) = run-Falls T es t₁ a.1 after.1 sound₁ stopping in
      (t₂, fx ++ fx₂, rw (first, later), omega (arith, turns_in_cons e es))

  rank_bound : (p : Phase) → rank p ≤ 3
  unfolding rank
  rank_bound awaiting_switch = omega arith
  rank_bound _ = omega arith

  -- Once `stop` has been called on a sound tenant whose switch has come, its thread ends: every
  -- history of events whose changes of the configuration can be read ends, and with at least three
  -- turns, at times when the message at hand is due, the thread is finished.
  pub run_stopped :
      (T : Time) (es : List Event) (t : Tenant x)
      → IsSound x t
      → IsStopping T t
      → All (IsAccepted x) es
      → All (IsAfter T) es
      → 3 ≤ turns_in es
      → (t' : Tenant x) × (fx : List Effect) × (run x es t ≡ ok (t', fx)) × (t'.phase ≡ finished)
  run_stopped T es t sound s a after enough =
      let (t', fx, done, less) = run-Falls T es t a after sound s in
      (t', fx, done, rank_zero t'.phase (omega (arith, rank_bound t.phase)))
