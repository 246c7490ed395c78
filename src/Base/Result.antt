-- ===== src/Base/Result.antt =====
-- A run of the source's code that may stop: by an exception, a failed assertion, or undefined
-- behaviour.
use mathlib.Core.Path.{◌≡◌, refl}
use mathlib.Core.Bool.{Bool, true, false}
use mathlib.Core.Option.{Option, none, some}

pub data Fault : Type 0 where
  -- `etcd::ReplyException` and `boost::bad_lexical_cast`, where nothing catches them
  reply_exception bad_lexical_cast : Fault
  -- a failed `BOOST_ASSERT`, `map::at` or `string::substr` past the end
  assertion out_of_range : Fault
  -- a null `shared_ptr` or the end of a container is read, a conversion has no defined value
  null_pointer past_the_end undefined_conversion : Fault
  -- an object is used that is deleted, or that was never made
  dangling : Fault
  -- a loop of the model ran out of fuel
  no_fuel : Fault

-- What a run gives.
pub data Result {ℓ} (A : Type ℓ) : Type ℓ where
  ok : A → Result A
  fault : Fault → Result A

abbrev pub or_fault {ℓ} : {A : Type ℓ} → Option A → Fault → Result A
or_fault none e = fault e
or_fault (some a) e = ok a

-- `BOOST_ASSERT`, `string::substr` and the like.
abbrev pub require : Bool → Fault → Result (Unit {0})
require c e = elim c [ true ↦ ok tt | false ↦ fault e ]

infixl 5 ◌>>=◌ ◌>>◌
-- The second step runs only where the first one gave a value.
abbrev pub ◌>>◌ {κ} : {B : Type κ} → Result (Unit {0}) → Result B → Result B
fault e >> next = fault e
ok done >> next = next

abbrev pub ◌>>=◌ {κ ℓ} : {B : Type κ} {A : Type ℓ} → Result A → (A → Result B) → Result B
fault e >>= next = fault e
ok a >>= next = next a

-- What a successful chain of two steps went through.
pub >>=-eq-ok {κ ℓ} :
    {B : Type κ} {b : B} {A : Type ℓ} (m : Result A) (next : A → Result B)
    → (m >>= next) ≡ ok b
    → (a : A) × (m ≡ ok a) × (next a ≡ ok b)
>>=-eq-ok (fault e) next h = cc
>>=-eq-ok (ok a) next h = (a, refl, h)

pub ok-injective {ℓ} : {A : Type ℓ} (a b : A) → ◌≡◌ {A = Result A} (ok a) (ok b) → a ≡ b
ok-injective a b h = cc
