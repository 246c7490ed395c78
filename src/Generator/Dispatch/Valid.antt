-- ===== src/Generator/Dispatch/Valid.antt =====
-- When a generator never fails, of either class.
use mathlib.Core.Path.{subst}
use hvbench.Base.{
  ◌<◌, ◌⊎◌, true, false, some, Option-cases, ◌==◌, text_key, text_eqb_iff, ℕ, ◌≤◌, ◌≡◌, refl, arith,
  Text, text_eqb, codes, inl, inr,
}
use hvbench.Base.Result.{Result, ok, >>=-eq-ok, ◌>>=◌}
use hvbench.External.Boost.{Boost}
use hvbench.External.Random.{Random}
use hvbench.External.Fluid.{Fluid}
use hvbench.Base.Dict.{lookup}
use hvbench.Msg.{rstr}
use hvbench.Msg.Messages.{Time, ScheduledMsg, scheduled, make}
use hvbench.Msg.Laws.{IsRequest, gen_of-IsRequest}
use hvbench.Generator.Abstract.Laws.{base_time-count}
use hvbench.Generator.Constant
use hvbench.Generator.Tenant
use hvbench.Generator.Tenant.{TenantGenerator}
use hvbench.Generator.Tenant.Valid as TenantValid
use hvbench.Generator.Dispatch.{Generator, constant, tenant, peek, next, update, set_time_reference}

module _ (r : Random) where
  abbrev pub IsValid : Generator r → Type 0
  IsValid (constant g) = Unit {0}
  IsValid (tenant g) = TenantValid.IsValid r g

  -- A message that is drawn, of a known kind and due when `peek` said; the generator behind it is
  -- due no earlier.
  abbrev pub Draws : Generator r → Result (ScheduledMsg × Generator r) → Type 0
  Draws g d =
      (m : ScheduledMsg) × (g' : Generator r) × (d ≡ ok (m, g'))
      × IsRequest m.of_msg.type
      × (m.time_ns ≡ peek r g)
      × (peek r g ≤ peek r g')
      × IsValid g'

  pub next-Draws : (f : Fluid) (g : Generator r) → IsValid g → Draws g (next r f g)
  unfolding next Constant.next make peek scheduled
  next-Draws f (constant g) v =
      let (s, g') = Constant.next f g in
      (
        s,
        constant g',
        refl,
        gen_of-IsRequest f g.msg_factory.class _,
        omega arith,
        (let same = base_time-count g.base s in omega arith),
        tt,
      )
  next-Draws f (tenant g) v =
      let (m, g', drawn, request, due, _, _, later, valid) = TenantValid.next-IsValid r f g v in
      (m, tenant g', rw (drawn, ◌>>=◌) refl, request, due, later, valid)

  pub set_time_reference-IsValid :
      (t : Time) (g : Generator r) → IsValid g → IsValid (set_time_reference r t g)
  unfolding set_time_reference
  set_time_reference-IsValid t (constant g) v = tt
  set_time_reference-IsValid t (tenant g) v = record {
    requests = v.requests;
    weighted = v.weighted;
    some_weight = v.some_weight;
    drawn = v.drawn;
  }

  pub update-IsValid :
      (b : Boost) (key value : Text) (g : Generator r) {g' : Generator r}
      → update r b key value g ≡ ok g'
      → IsValid g
      → IsValid g'
  unfolding update
  update-IsValid b key value (constant g) {g'} h v =
      let (g₁, _, last) = >>=-eq-ok (Constant.update b key value g) (λ g₁. ok (constant g₁)) h in
      let same : constant g₁ ≡ g' = ground arith in subst IsValid same tt
  update-IsValid b key value (tenant g) {g'} h v =
      let (g₁, new, last) = >>=-eq-ok (Tenant.update r b key value g) (λ g₁. ok (tenant g₁)) h in
      let same : tenant g₁ ≡ g' = ground arith in
      subst IsValid same (TenantValid.update-IsValid r b key value g new v)

  -- A change that the code can read: a positive rate, or a weight.
  abbrev pub IsReadable : Boost → Text → Text → Type 0
  IsReadable b key value =
      ((text_eqb key (codes "avg_rate") ≡ true) × ((n : ℕ) × (b.cast_u32 value ≡ some n) × (0 < n)))
      ⊎ ((text_eqb key (codes "avg_rate") ≡ false)
          × ((w : r.Float) × (r.cast_float value ≡ some w)))

  update_weight_total :
      (key value : Text) (g : TenantGenerator r) (w : r.Float)
      → r.cast_float value ≡ some w
      → (g' : TenantGenerator r) × (Tenant.update_weight r key value g ≡ ok g')
  unfolding Tenant.update_weight
  update_weight_total key value g w e = elim (Option-cases (lookup key rstr)) [
    | inl unknown ↦ rw (Tenant.update_weight, unknown) (_, refl)
    | inr (t, known) ↦ elim (Option-cases (Tenant.index_of t g.of_types)) [
      | inl absent ↦ rw (Tenant.update_weight, known, absent) (_, refl)
      | inr (i, at) ↦ rw (Tenant.update_weight, known, at, e) (_, refl)
    ]
  ]

  -- The key of the rate names no kind, so nothing is read of it as a weight.
  update_weight_rate :
      (key value : Text) (g : TenantGenerator r)
      → text_eqb key (codes "avg_rate") ≡ true
      → (g' : TenantGenerator r) × (Tenant.update_weight r key value g ≡ ok g')
  unfolding Tenant.update_weight lookup rstr text_eqb
  update_weight_rate key value g e = rw ((text_eqb_iff key (codes "avg_rate")).0 e) (_, refl)

  -- A change that can be read is taken by a generator of either class.
  pub update_total :
      (b : Boost) (key value : Text) (g : Generator r)
      → IsReadable b key value
      → (g' : Generator r) × (update r b key value g ≡ ok g')
  unfolding update Constant.update Constant.inter_arrival Tenant.update
  update_total b key value (constant g) (inl (rate, (n, e, positive))) =
      let some_rate : (n == 0) ≡ false = ground arith in
      rw (update, Constant.update, rate, e, some_rate) (_, refl)
  update_total b key value (constant g) (inr (weight, w)) =
      rw (update, Constant.update, weight) (_, refl)
  update_total b key value (tenant g) (inl (rate, (n, e, positive))) =
      let some_rate : (n == 0) ≡ false = ground arith in
      let nd = r.exponential n in
      let (g', done) = update_weight_rate key value (record g { nd = nd; var_exp = nd }) rate in
      rw (update, Tenant.update, rate, e, some_rate, done) (_, refl)
  update_total b key value (tenant g) (inr (weight, (w, e))) =
      let (g', done) = update_weight_total key value g w e in
      rw (update, Tenant.update, weight, done) (_, refl)
