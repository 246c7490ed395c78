-- ===== src/HvBench/Keeping.antt =====
-- No change of the configuration makes an instance forget a tenant.
use mathlib.Core.Path.{subst}
use hvbench.Base.{
  ◌≡◌, refl, sym, ap, ◌∙◌, inl, inr, true, Bool-cases, Option-cases, List, [], ◌∷◌, some, arith,
  Text, text_key, All, ◌=?◌,
}
use hvbench.Base.Result.{ok, >>=-eq-ok}
use hvbench.Base.Dict.{Dict, keys, has, lookup, insert, lookup-insert}
use hvbench.Node.Life.{Out}
use hvbench.Controller.Defs.{Externals}
use hvbench.Stats.Output.{OutputBase}
use hvbench.Tenant.{TenantHandle, Rest}
use hvbench.Tenant
use hvbench.Tenant.Stopping.{stop-returned}
use hvbench.HvBench.{HvBench, stop_tenants, stop_nodes}
use hvbench.HvBench.Run
use hvbench.HvBench.Run.{Happening, happen, wait, IsStopped}
use hvbench.HvBench.Growth.{Grows, happen-Grows}

module _ (x : Externals) where
  -- A known tenant is known still.
  abbrev pub Knows : HvBench x → HvBench x → Type 0
  Knows h h' = (k : Text) → has k h.tenants ≡ true → has k h'.tenants ≡ true

  insert-Knows :
      (k j : Text) (t : TenantHandle x) (m : Dict Text (TenantHandle x))
      → has k m ≡ true
      → has k (insert j t m) ≡ true
  unfolding has
  insert-Knows k j t m h = elim (Bool-cases (j =? k)) [
    | inl same ↦ rw (has, lookup-insert j k t m, same) refl
    | inr apart ↦ rw (has, lookup-insert j k t m, apart) h
  ]

  Grows-Knows : (h h' : HvBench x) → Grows x h h' → Knows h h'
  Grows-Knows h h' (inl e) k kn = rw e kn
  Grows-Knows h h' (inr (j, t, e)) k kn = rw e (insert-Knows k j t h.tenants kn)

  -- What a `stop_tenants` that returns does.
  stop_tenants-IsStopped :
      (rest : Text → Rest) (output : OutputBase) (m : Dict Text (TenantHandle x))
      {m' : Dict Text (TenantHandle x)}
      → stop_tenants x rest output m ≡ ok (some m')
      → (keys m' ≡ keys m) × All (IsStopped x) m'
  unfolding stop_tenants
  stop_tenants-IsStopped rest output [] {m'} e =
      let same : [] ≡ m' = ground arith in
      subst (λ l. (keys l ≡ []) × All (IsStopped x) l) same (refl, tt)
  stop_tenants-IsStopped rest output ((k, t) ∷ ts) {m'} e =
      let (joined, stops, e₁) = >>=-eq-ok (Tenant.stop x output (rest k) t) _ e in
      elim (Option-cases joined) [
        | inl waits ↦ let none_yet = rw waits at e₁ in absurd (cc)
        | inr (t', returns) ↦
            let (others, later, e₂) =
              >>=-eq-ok (stop_tenants x rest output ts) _ (rw returns at e₁) in
            elim (Option-cases others) [
              | inl waits ↦ let none_yet = rw waits at e₂ in absurd (cc)
              | inr (ts', all_return) ↦
                  let last = rw all_return at e₂ in
                  let (same, all) =
                    stop_tenants-IsStopped rest output ts (rw all_return at later) in
                  let whole : (k, t') ∷ ts' ≡ m' = ground arith in
                  subst (λ l. (keys l ≡ k ∷ keys ts) × All (IsStopped x) l) whole
                    (
                      ap (◌∷◌ k) same,
                      (stop-returned x output (rest k) t (rw returns at stops), all),
                    )
            ]
      ]

  -- A tenant is known exactly by its key.
  has-keys :
      (k : Text) (m m' : Dict Text (TenantHandle x))
      → keys m' ≡ keys m
      → has k m ≡ true
      → has k m' ≡ true
  unfolding has lookup
  has-keys k [] [] e h = h
  has-keys k [] (_ ∷ _) e h = absurd (cc)
  has-keys k (_ ∷ _) [] e h = absurd (cc)
  has-keys k ((j, t) ∷ m) ((i, u) ∷ m') e h =
      let head : i ≡ j = cc in
      let tail : keys m' ≡ keys m = cc in
      elim (Bool-cases (j =? k)) [
        | inl same ↦ rw (has, lookup, head, same) refl
        | inr apart ↦
            rw (has, lookup, head, apart) (has-keys k m m' tail (rw (has, lookup, apart) at h))
      ]

  wait-Knows :
      (cs : List Happening) (h : HvBench x) {last : HvBench x}
      → wait x cs h ≡ ok (some last)
      → Knows h last
  unfolding wait
  wait-Knows [] h {last} e k kn = elim (Bool-cases h.shutdown) [
    | inl ended ↦ let same = rw (ended, wait) at e in ground arith
    | inr on ↦ let waits = rw (on, wait) at e in absurd (cc)
  ]
  wait-Knows (c ∷ cs) h e k kn =
      let (h₁, first_, rest) = >>=-eq-ok (happen x c h) _ e in
      wait-Knows cs h₁ rest k (Grows-Knows h h₁ (happen-Grows x c h first_) k kn)

  wait-shutdown :
      (cs : List Happening) (h : HvBench x) {last : HvBench x}
      → wait x cs h ≡ ok (some last)
      → last.shutdown ≡ true
  unfolding wait
  wait-shutdown [] h {last} e = elim (Bool-cases h.shutdown) [
    | inl ended ↦ let same = rw (ended, wait) at e in ground arith
    | inr on ↦ let waits = rw (on, wait) at e in absurd (cc)
  ]
  wait-shutdown (c ∷ cs) h e =
      let (h₁, first_, rest) = >>=-eq-ok (happen x c h) _ e in wait-shutdown cs h₁ rest

  -- What `run` went through where it returned.
  pub run_parts :
      (rest : Text → Rest) (cs : List Happening) (h : HvBench x) {last : HvBench x}
      {out : List (Text × List Out)}
      → Run.run x rest cs h ≡ ok (some (last, out))
      → (h' : HvBench x) × (wait x cs h ≡ ok (some h'))
        × (keys last.tenants ≡ keys h'.tenants)
        × All (IsStopped x) last.tenants
        × (last.shutdown ≡ true)
  unfolding Run.run
  run_parts rest cs h {last} e =
      let (ended, waited, e₁) = >>=-eq-ok (wait x cs h) _ e in
      elim (Option-cases ended) [
        | inl waits ↦ let none_yet = rw waits at e₁ in absurd (cc)
        | inr (h', shut) ↦
            let (joined, stops, e₂) =
              >>=-eq-ok (stop_tenants x rest h'.output h'.tenants) _ (rw shut at e₁) in
            elim (Option-cases joined) [
              | inl waits ↦ let none_yet = rw waits at e₂ in absurd (cc)
              | inr (ts, returns) ↦
                  let (ended_, _, done) = >>=-eq-ok (stop_nodes h'.nodes) _ (rw returns at e₂) in
                  let (same, all) =
                    stop_tenants-IsStopped rest h'.output h'.tenants (rw returns at stops) in
                  let there : ts ≡ last.tenants = ground arith in
                  let over : h'.shutdown ≡ last.shutdown = ground arith in
                  (
                    h',
                    rw shut at waited,
                    subst (λ m. keys m ≡ keys h'.tenants) there same,
                    subst (λ m. All (IsStopped x) m) there all,
                    sym over ∙ wait-shutdown cs h (rw shut at waited),
                  )
            ]
      ]

  -- A tenant that an instance knows is stopped at its end: whatever changes and steps of tenants come
  -- in before the shutdown, none makes the instance forget it, and where `run` returns, it is among
  -- the tenants, all of which have a controller and a thread that has returned.
  pub run-Keeps :
      (rest : Text → Rest) (cs : List Happening) (h : HvBench x) (k : Text) {last : HvBench x}
      {out : List (Text × List Out)}
      → has k h.tenants ≡ true
      → Run.run x rest cs h ≡ ok (some (last, out))
      → (has k last.tenants ≡ true) × All (IsStopped x) last.tenants
  run-Keeps rest cs h k {last} kn e =
      let (h', waited, same, all, _) = run_parts rest cs h e in
      (has-keys k h'.tenants last.tenants same (wait-Knows cs h waited k kn), all)
