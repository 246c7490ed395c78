-- ===== src/Generator/Dispatch/Laws.antt =====
-- What holds of both generators.
use hvbench.Base.{Text, text_eqb, codes, Bool-cases, inl, inr, ◌≡◌, arith}
use hvbench.Base.Result.{ok, >>=-eq-ok, or_fault, bad_lexical_cast}
use hvbench.External.Boost.{Boost}
use hvbench.External.Random.{Random}
use hvbench.External.Fluid.{Fluid}
use hvbench.Msg.{ofpt_key}
use hvbench.Msg.Messages.{ScheduledMsg, scheduled}
use hvbench.Generator.Abstract.{AbstractGenerator, count}
use hvbench.Generator.Constant
use hvbench.Generator.Tenant
use hvbench.Generator.Tenant.{TenantGenerator}
use hvbench.Generator.Dispatch.{Generator, constant, tenant, peek, next, update}

module _ (r : Random) where
  abbrev pub base_of : Generator r → AbstractGenerator
  base_of (constant g) = g.base
  base_of (tenant g) = g.base

  -- A message is due at the time that `peek` gave before, awaits a reply if its kind has one, and is
  -- counted.
  pub next_base :
      (f : Fluid) (g : Generator r) {m : ScheduledMsg} {g' : Generator r}
      → next r f g ≡ ok (m, g')
      → (base_of g' ≡ count (base_of g) m)
        × (m.time_ns ≡ peek r g)
        × (m.awaits_reply ≡ m.of_msg.has_reply)
  unfolding next Constant.next Tenant.next peek scheduled
  next_base f (constant g) h = ground arith
  next_base f (tenant g) h = ground arith

  update_weight-base :
      (key value : Text) (g : TenantGenerator r) {g' : TenantGenerator r}
      → Tenant.update_weight r key value g ≡ ok g'
      → g'.base ≡ g.base
  unfolding Tenant.update_weight Tenant.set_weight
  update_weight-base key value g h = ground arith

  tenant_update-base :
      (b : Boost) (key value : Text) (g : TenantGenerator r) {g' : TenantGenerator r}
      → Tenant.update r b key value g ≡ ok g'
      → g'.base ≡ g.base
  unfolding Tenant.update
  tenant_update-base b key value g h = elim (Bool-cases (text_eqb key (codes "avg_rate"))) [
    | inl e ↦
        let (rate, _, made) =
          >>=-eq-ok (or_fault (b.cast_u32 value) bad_lexical_cast) _ (rw (e, Tenant.update) at h) in
        let (nd, _, rest) = >>=-eq-ok (Tenant.exponential_of r rate) _ made in
        update_weight-base key value _ rest
    | inr e ↦ update_weight-base key value g (rw (e, Tenant.update) at h)
  ]

  -- A change of the configuration leaves the counters and the time reference alone.
  pub update-base :
      (b : Boost) (key value : Text) (g : Generator r) {g' : Generator r}
      → update r b key value g ≡ ok g'
      → base_of g' ≡ base_of g
  unfolding update Constant.update
  update-base b key value (constant g) h = ground arith
  update-base b key value (tenant g) h =
      let (g₁, new, last) = >>=-eq-ok (Tenant.update r b key value g) (λ g₁. ok (tenant g₁)) h in
      let same = tenant_update-base b key value g new in ground arith
