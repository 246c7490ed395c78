-- ===== src/Tenant/Setup.antt =====
-- What the thread of a tenant starts with, and that it does not fail from there on.
use mathlib.Core.Path.{subst}
use hvbench.Base.{
  ℕ, suc, ◌≡◌, refl, ◌≢◌, inl, inr, false, Bool-cases, List, [], ◌∷◌, some, arith, Text, length,
  text_eqb, codes, All,
}
use hvbench.Base.Result.{ok, >>=-eq-ok, or_fault, out_of_range, bad_lexical_cast}
use hvbench.Base.Dict.{lookup}
use hvbench.Conf.{c_etcd_ptenants_conf}
use hvbench.Etcd.{Server, etcd_get}
use hvbench.Msg.{Ofpt, ofpt_key, ofpt_eqb, str}
use hvbench.Msg.Messages.{Time}
use hvbench.Msg.Laws.{contains, IsRequest}
use hvbench.Stats.Output.{OutputBase}
use hvbench.Stats.Latency.Named.{create-Named}
use hvbench.Generator.Constant
use hvbench.Generator.Tenant as TenantGenerator
use hvbench.Generator.Tenant.Valid.{create-IsValid}
use hvbench.Generator.Dispatch.{Generator, constant, tenant}
use hvbench.Generator.Dispatch.Valid.{IsValid}
use hvbench.Controller.Defs.{Externals}
use hvbench.Controller.Defs
use hvbench.Controller.Run.{Event, awaiting_switch, run}
use hvbench.Controller.Run
use hvbench.Controller.Laws.Ready.{IsSound, Succeeds}
use hvbench.Controller.Laws.Progress.{IsAccepted, run_total}
use hvbench.Tenant.{
  TenantHandle, in_run, msg_types, read_weights, make_generator, set_controller, set_generator,
  run_setup, as_running,
}

ne-nil {ℓ} : {A : Type ℓ} (n : ℕ) (xs : List A) → length xs ≡ suc n → xs ≢ []
ne-nil n [] h = absurd (omega arith)
ne-nil n (x ∷ xs) h = cc

module _ (x : Externals) where
  open x use {boost, random}

  length-read_weights :
      (etcd : Server) (basep : Text) (es : List Ofpt) {ws : List x.random.Float}
      → read_weights x etcd basep es ≡ ok ws
      → length ws ≡ length es
  unfolding read_weights
  length-read_weights etcd basep [] h = ground arith
  length-read_weights etcd basep (e ∷ es) h =
      let (name, _, h₁) = >>=-eq-ok (or_fault (lookup e str) out_of_range) _ h in
      let (text, _, h₂) =
        >>=-eq-ok (etcd_get boost etcd basep (boost.format (codes "weights/%s") (name ∷ [])) false)
          _ h₁ in
      let (weight, _, h₃) = >>=-eq-ok (or_fault (random.cast_float text) bad_lexical_cast) _ h₂ in
      let (rest, more, last) = >>=-eq-ok (read_weights x etcd basep es) _ h₃ in
      ground (arith, length-read_weights etcd basep es more)

  msg_types-IsRequest : All IsRequest (msg_types x)
  unfolding contains ofpt_eqb
  msg_types-IsRequest = (refl, (refl, (refl, (refl, (refl, (refl, tt))))))

  make_generator-IsValid :
      (etcd : Server) (old seed : ℕ) (basep id : Text) {g : Generator x.random}
      → make_generator x etcd old seed basep id ≡ ok g
      → IsValid x.random g
  unfolding make_generator
  make_generator-IsValid etcd old seed basep id {g} h =
      let (generator_t, _, h₁) =
        >>=-eq-ok (etcd_get boost etcd basep (codes "generator") false) _ h in
      elim (Bool-cases (text_eqb generator_t (codes "constant"))) [
        | inl e ↦
            let (c, _, last) =
              >>=-eq-ok (Constant.create boost etcd _) (λ c. ok (constant c)) (rw e at h₁) in
            let same : constant c ≡ g = ground arith in subst (IsValid random) same tt
        | inr e ↦
            let (weights, read, h₂) =
              >>=-eq-ok (read_weights x etcd basep (msg_types x)) _ (rw e at h₁) in
            let (rate_text, _, h₃) =
              >>=-eq-ok (etcd_get boost etcd basep (codes "generator_conf/avg_rate") false) _ h₂ in
            let (rate, _, h₄) =
              >>=-eq-ok (or_fault (boost.cast_u32 rate_text) bad_lexical_cast) _ h₃ in
            let (mixed, made, last) =
              >>=-eq-ok (TenantGenerator.create random old seed rate (msg_types x) weights) _ h₄ in
            let many = length-read_weights etcd basep (msg_types x) read in
            let same : tenant mixed ≡ g = ground arith in
            subst (IsValid random) same (
              create-IsValid random old seed rate (msg_types x) weights made msg_types-IsRequest
                many (ne-nil 5 weights many))
      ]

  -- A tenant that was set up, as the controller's `run` sees it.
  abbrev StartsAs : OutputBase → TenantHandle x → Run.Tenant x → Type 0
  StartsAs output t r = as_running x output t ≡ some r

  -- What the setup of a tenant gives is sound, whatever etcd holds.
  run_setup-IsSound :
      (etcd : Server) (old seed : ℕ) (now : Time) (output : OutputBase) (t : TenantHandle x)
      {t' : TenantHandle x}
      → run_setup x etcd old seed now t ≡ ok t'
      → (r : Run.Tenant x) × StartsAs output t' r × IsSound x r
  unfolding run_setup set_controller set_generator as_running Defs.create
  run_setup-IsSound etcd old seed now output t {t'} h =
      let basep = boost.format (codes "%s/%s") (c_etcd_ptenants_conf ∷ t.id ∷ []) in
      let (t₁, first, h₀) = >>=-eq-ok (set_controller x etcd now t) _ h in
      let (listen, _, h₁) =
        >>=-eq-ok (etcd_get boost etcd basep (codes "setup/listen") false) _ first in
      let (port_text, _, h₂) =
        >>=-eq-ok (etcd_get boost etcd basep (codes "setup/port") false) _ h₁ in
      let (port, _, set) = >>=-eq-ok (or_fault (boost.cast_u32 port_text) bad_lexical_cast) _ h₂ in
      let (g, made, last) =
        >>=-eq-ok
          (make_generator x etcd old seed
            (boost.format (codes "%s/%s") (c_etcd_ptenants_conf ∷ t₁.id ∷ [])) t₁.id)
          _ h₀ in
      let controller_ : t₁.hvcontroller ≡ some (Defs.create x now) = ground arith in
      let starts : Run.Tenant x = record {
        id = t₁.id;
        controller = Defs.create x now;
        generator = g;
        output = output;
        phase = awaiting_switch;
        last_stat_time = 0;
      } in
      let whole : record t₁ { msg_generator = some g; thread = in_run awaiting_switch 0 } ≡ t' =
        ground arith in
      (
        starts,
        subst (λ t₂. StartsAs output t₂ starts) whole (rw (controller_, as_running) refl),
        record {
          generator = make_generator-IsValid etcd old seed _ t₁.id made;
          ready = inl refl;
          named = create-Named x.queue x.acc;
        },
      )

  -- A tenant whose setup in etcd can be read, with a positive rate, comes to the controller's `run`, if
  -- no callback falls between the parts of the setup, and does not fail there: every history of events, in which the changes of the configuration can
  -- be read and none of them falls into a call of the generator's `next`, ends without a null
  -- pointer, an exception or a failed assertion.
  pub run_setup-run :
      (etcd : Server) (old seed : ℕ) (now : Time) (output : OutputBase) (t : TenantHandle x)
      {t' : TenantHandle x} (es : List Event)
      → run_setup x etcd old seed now t ≡ ok t'
      → All (IsAccepted x) es
      → (r : Run.Tenant x) × (as_running x output t' ≡ some r) × Succeeds x (run x es r)
  run_setup-run etcd old seed now output t es h a =
      let (r, starts, sound) = run_setup-IsSound etcd old seed now output t h in
      (r, starts, run_total x es r a sound)
