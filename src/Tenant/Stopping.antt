-- ===== src/Tenant/Stopping.antt =====
-- The end of a tenant: `stop()`, with the join of the thread.
use mathlib.Core.Path.{subst}
use mathlib.Core.Option.{some-injective}
use hvbench.Base.{
  ◌≤◌, ◌≡◌, refl, sym, ◌∙◌, inl, inr, ap, true, Bool-cases, [], none, some, List, Option, Text,
  arith, All,
}
use hvbench.Base.Result.{ok, or_fault, null_pointer, >>=-eq-ok}
use hvbench.Msg.Messages.{Time}
use hvbench.Stats.Output.{OutputBase}
use hvbench.Generator.Dispatch.{Generator}
use hvbench.Controller.Defs.{Externals, Controller}
use hvbench.Controller.Defs
use hvbench.Controller.Run.{Phase, finished, awaiting_switch, Event}
use hvbench.Controller.Run
use hvbench.Controller.Laws.Ready.{IsSound}
use hvbench.Controller.Laws.Progress.{IsAccepted}
use hvbench.Controller.Laws.Stopping.{DueBy, IsAfter, turns_in, run_stopped}
use hvbench.Controller.Laws.Connection.{IsWithoutSwitch, IsIdle, run-StaysIdle}
use hvbench.Tenant.{
  TenantHandle, Thread, before_controller, before_generator, in_run, Rest, has_ended, assemble,
  as_running, store, advance_all, join_run, join, stop,
}

module _ (x : Externals) where
  -- The thread of a tenant has returned, and its controller is there.
  abbrev pub HasReturned : TenantHandle x → Type 0
  HasReturned t = (c : Controller x) × (t.hvcontroller ≡ some c) × (has_ended t.thread ≡ true)

  -- A tenant in the controller's `run`, and the same with another controller.
  abbrev Fits :
      Option (Controller x) → (Controller x → Option (Run.Tenant x)) → Run.Tenant x → Type 0
  Fits c again r =
      (c ≡ some r.controller) × ((d : Controller x) → again d ≡ some (record r { controller = d }))

  assemble-Fits :
      (id : Text) (output : OutputBase) (th : Thread) (c : Option (Controller x))
      (g : Option (Generator x.random)) {r : Run.Tenant x}
      → assemble x id output th c g ≡ some r
      → Fits c (λ d. assemble x id output th (some d) g) r
  assemble-Fits id output (in_run p l) (some c) (some g) {r} h =
      subst (Fits (some c) (λ d. assemble x id output (in_run p l) (some d) (some g)))
        (some-injective _ r h) (refl, λ d. refl)
  assemble-Fits id output (in_run p l) (some c) none h = absurd (cc)
  assemble-Fits id output (in_run p l) none g h = absurd (cc)
  assemble-Fits id output before_controller c g h = absurd (cc)
  assemble-Fits id output before_generator c g h = absurd (cc)

  -- `stop()` of a tenant in the controller's `run`, up to the end of the events around it.
  stop-join :
      (output : OutputBase) (es : List Event) (t : TenantHandle x) {r : Run.Tenant x}
      → as_running x output t ≡ some r
      → (stop x output ([], es) t
          ≡ join x output ([], es) (record t { hvcontroller = some (Defs.stop x r.controller) }))
        × (as_running x output (record t { hvcontroller = some (Defs.stop x r.controller) })
            ≡ some (record r { controller = Defs.stop x r.controller }))
  unfolding stop as_running
  stop-join output es t {r} h =
      let (there, again) = assemble-Fits t.id output t.thread t.hvcontroller t.msg_generator h in
      (rw (there, stop) refl, again (Defs.stop x r.controller))

  -- The thread of a tenant in `run` ends after `stop`: its state is sound, its switch has come, the
  -- message at hand is due by a time, and from that time on the thread has three turns.
  pub record CanStop (T : Time) (output : OutputBase) (rest : Rest) (t : TenantHandle x)
      : Type 0 where
    pub events : List Event
    pub around : rest ≡ ([], events)
    pub running : Run.Tenant x
    pub runs : as_running x output t ≡ some running
    pub sound : IsSound x running
    pub up : running.controller.switch_up ≡ true
    pub due : DueBy T running.phase
    pub accepted : All (IsAccepted x) events
    pub after : All (IsAfter T) events
    pub enough : 3 ≤ turns_in events

  pub stop-HasReturned :
      (T : Time) (output : OutputBase) (rest : Rest) (t : TenantHandle x)
      → CanStop T output rest t
      → (t' : TenantHandle x) × (stop x output rest t ≡ ok (some t')) × HasReturned t'
  unfolding join advance_all store has_ended Defs.stop
  stop-HasReturned T output rest t s =
      let (stops, again) = stop-join output s.events t s.runs in
      let told = record s.running { controller = Defs.stop x s.running.controller } in
      let (r', fx, ran, over) =
        run_stopped x T s.events told
          (record { generator = s.sound.generator; ready = s.sound.ready; named = s.sound.named })
          (record { stopped = refl; up = s.up; due = s.due }) s.accepted s.after s.enough in
      let t₁ = record t { hvcontroller = some (Defs.stop x s.running.controller) } in
      (
        store x r' t₁,
        subst (λ r. stop x output r t ≡ ok (some (store x r' t₁))) (sym s.around)
            (stops ∙ ap (join_run x s.events t₁) again ∙ rw (join_run, ran, over) refl),
        (r'.controller, refl, rw over refl),
      )

  -- What a join that ends has seen.
  join_run-HasReturned :
      (es : List Event) (t : TenantHandle x) (r? : Option (Run.Tenant x)) {t' : TenantHandle x}
      → join_run x es t r? ≡ ok (some t')
      → HasReturned t'
  unfolding join_run store
  join_run-HasReturned es t none h = absurd (cc)
  join_run-HasReturned es t (some r) {t'} h =
      let ((r', fx), _, last) = >>=-eq-ok (Run.run x es r) _ h in
      elim (Bool-cases (has_ended (store x r' t).thread)) [
        | inl over ↦
            let done = rw over at last in
            let same : store x r' t ≡ t' = ground arith in
            subst HasReturned same (r'.controller, refl, over)
        | inr on ↦ let waits = rw on at last in absurd (cc)
      ]

  join-HasReturned :
      (output : OutputBase) (rest : Rest) (t : TenantHandle x) {t' : TenantHandle x}
      → join x output rest t ≡ ok (some t')
      → HasReturned t'
  unfolding join
  join-HasReturned output (ss, es) t {t'} h =
      let (t₁, _, h₁) = >>=-eq-ok (advance_all x output ss t) _ h in
      join_run-HasReturned es t₁ (as_running x output t₁) h₁

  pub stop-returned :
      (output : OutputBase) (rest : Rest) (t : TenantHandle x) {t' : TenantHandle x}
      → stop x output rest t ≡ ok (some t')
      → HasReturned t'
  unfolding stop
  stop-returned output rest t h =
      let (c, _, joins) = >>=-eq-ok (or_fault t.hvcontroller null_pointer) _ h in
      join-HasReturned output rest _ joins

  -- `stop` of a tenant whose thread waits for its switch does not return: whatever happens but a
  -- connection of the switch or a change for the generator, the join goes on waiting.
  pub stop_idle :
      (output : OutputBase) (es : List Event) (t : TenantHandle x) (r : Run.Tenant x)
      → as_running x output t ≡ some r
      → IsIdle x r
      → All (IsWithoutSwitch x) es
      → stop x output ([], es) t ≡ ok none
  unfolding join advance_all store has_ended Defs.stop
  stop_idle output es t r h idle without =
      let (stops, again) = stop-join output es t h in
      let told = record r { controller = Defs.stop x r.controller } in
      let (r', fx, ran, still) = run-StaysIdle x es told without idle in
      let t₁ = record t { hvcontroller = some (Defs.stop x r.controller) } in
      stops ∙ ap (join_run x es t₁) again ∙ rw (join_run, ran, still.0) refl
