-- ===== src/Base/Dict.antt =====
-- `std::map`: an association list, with the operations of it that the source calls.
use mathlib.Core.Path.{◌≡◌, refl, subst}
use mathlib.Core.Logic.{◌≢◌, inl, inr}
use mathlib.Core.Bool.{Bool, true, false}
use mathlib.Core.Option.{Option, none, some, some-injective}
use mathlib.Core.List.{List, [], ◌∷◌, map}
use native.Mathlib.Omega.{arith}
use hvbench.Base.Tests.{if◌then◌else◌, Bool-cases}
use hvbench.Base.Lists.{All}
use hvbench.Base.Keys.{Key, ◌=?◌}

-- The entries, in the order of the keys if `insert` made them.
abbrev pub Dict {ℓ κ} : Type ℓ → Type κ → Type (ℓ ⊔ κ)
Dict K V = List (K × V)

module _ {ℓ κ} {K : Type ℓ} {V : Type κ} where
  abbrev pub keys : Dict K V → List K
  keys = map (λ e. e.0)

  abbrev pub values : Dict K V → List V
  values = map (λ e. e.1)

module _ {ℓ κ} {K : Type ℓ} {V : Type κ} ⦃k : Key K⦄ where
  -- `m.find(key)`; `m.at(key)` throws where this is `none`.
  unfoldable pub lookup : K → Dict K V → Option V
  lookup a [] = none
  lookup a ((b, v) ∷ m) = if b =? a then some v else lookup a m

  -- `m[key] = value`.
  unfoldable pub insert : K → V → Dict K V → Dict K V
  insert a v [] = (a, v) ∷ []
  insert a v ((b, w) ∷ m) =
      let rest = insert a v m in
      if b =? a then (a, v) ∷ m else if k.less a b then (a, v) ∷ (b, w) ∷ m else (b, w) ∷ rest

  -- `m[key]` as a value: a key that is not there is given the default first.
  unfoldable pub get_or : K → V → Dict K V → V
  unfolding lookup
  get_or a d m = elim (lookup a m) [ none ↦ d | some v ↦ v ]

  -- `m.count(key)`, 0 or 1.
  unfoldable pub has : K → Dict K V → Bool
  unfolding lookup
  has a m = elim (lookup a m) [ none ↦ false | some _ ↦ true ]

  pub lookup-insert :
      (a b : K) (v : V) (m : Dict K V)
      → lookup b (insert a v m) ≡ (if a =? b then some v else lookup b m)
  unfolding lookup insert
  lookup-insert a b v [] = refl
  lookup-insert a b v ((c, w) ∷ m) =
      ground (arith, k.eqb_iff a b, k.eqb_iff c a, k.eqb_iff c b, lookup-insert a b v m)

  pub lookup-insert_self : (a : K) (v : V) (m : Dict K V) → lookup a (insert a v m) ≡ some v
  lookup-insert_self a v m = rw (lookup-insert, (k.eqb_iff a a).1 refl)

  pub lookup-insert_ne :
      (a b : K) (v : V) (m : Dict K V) → a ≢ b → lookup b (insert a v m) ≡ lookup b m
  lookup-insert_ne a b v m h = elim (Bool-cases (a =? b)) [
    | inl same ↦ absurd (h ((k.eqb_iff a b).0 same))
    | inr other ↦ rw (lookup-insert, other)
  ]

  -- What holds of every entry holds of one that is found.
  pub lookup-All {μ} :
      (P : K × V → Type μ) (a : K) {v : V} (m : Dict K V) → All P m → lookup a m ≡ some v → P (a, v)
  unfolding lookup
  lookup-All P a [] h e = cc
  lookup-All P a {v} ((b, w) ∷ m) h e = elim (Bool-cases (b =? a)) [
    | inl same ↦
        let found : w ≡ v = some-injective w v (rw (same, lookup) at e) in
        subst (λ (x : V). P (a, x)) found (subst (λ (x : K). P (x, w)) ((k.eqb_iff b a).0 same) h.0)
    | inr other ↦ lookup-All P a m h.1 (rw (other, lookup) at e)
  ]

  pub get_or-insert :
      (a b : K) (v d : V) (m : Dict K V)
      → get_or b d (insert a v m) ≡ (if a =? b then v else get_or b d m)
  unfolding get_or
  get_or-insert a b v d m = elim (Bool-cases (a =? b)) [
    | inl same ↦ rw (get_or, lookup-insert a b v m, same)
    | inr other ↦ rw (get_or, lookup-insert a b v m, other)
  ]

  pub insert-All {μ} :
      (P : K × V → Type μ) (a : K) (v : V) (m : Dict K V)
      → P (a, v)
      → All P m
      → All P (insert a v m)
  unfolding insert
  insert-All P a v [] h all = (h, tt)
  insert-All P a v ((b, w) ∷ m) h all = elim (Bool-cases (b =? a)) [
    | inl same ↦ rw (insert, same) (h, all.1)
    | inr other ↦ elim (Bool-cases (k.less a b)) [
      | inl before ↦ rw (insert, other, before) (h, all)
      | inr behind ↦ rw (insert, other, behind) (all.0, insert-All P a v m h all.1)
    ]
  ]
