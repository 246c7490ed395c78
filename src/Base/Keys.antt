-- ===== src/Base/Keys.antt =====
-- What a `std::map` needs of its keys: a test of equality that is right, and an order.
use Prim.Native.Nat.{ℕ}
use mathlib.Core.Path.{◌≡◌}
use mathlib.Core.Logic.{◌↔◌}
use mathlib.Core.Bool.{Bool, true}
use hvbench.Base.Tests.{ltb, ◌==◌, ==_iff}
use hvbench.Base.Strings.{Text, text_eqb, text_eqb_iff, text_ltb}

pub record Key {ℓ} (A : Type ℓ) : Type ℓ where
  pub eqb : A → A → Bool
  pub less : A → A → Bool
  pub eqb_iff : (a b : A) → (eqb a b ≡ true) ↔ (a ≡ b)

infix 50 ◌=?◌
abbrev pub ◌=?◌ {ℓ} : {A : Type ℓ} ⦃k : Key A⦄ → A → A → Bool
◌=?◌ ⦃k⦄ = k.eqb

instance abbrev pub nat_key : Key ℕ
nat_key = record { eqb = ◌==◌; less = ltb; eqb_iff = ==_iff }

instance abbrev pub text_key : Key Text
text_key = record { eqb = text_eqb; less = text_ltb; eqb_iff = text_eqb_iff }
