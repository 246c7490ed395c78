-- ===== src/Generator/Constant/Schedule.antt =====
-- When `ConstantGenerator` sends, and what.
use native.Mathlib.Nat.{mul-le-mul_right, div-eq_of_lt-le, lt-mul-div-succ, div-mul-le_self}
use native.Mathlib.Decide.{dec_lt}
use hvbench.Base.{
  ◌/◌, ◌==◌, false, ap, sym, ℕ, zero, suc, ◌+◌, ◌*◌, ◌%◌, ◌^◌, ◌≤◌, ◌<◌, ◌≡◌, List, [], ◌∷◌, some,
  arith, get_elem?,
}
use hvbench.Base.Result.{ok}
use hvbench.External.Fluid.{Fluid}
use hvbench.Msg.Messages.{ScheduledMsg, scheduled, gen_of, make}
use hvbench.Generator.Constant.{ConstantGenerator, next, inter_arrival, second_ns}

module _ (f : Fluid) where
  -- `n` calls of `next`: the messages, and the generator after them.
  unfoldable pub nexts : ℕ → ConstantGenerator → List ScheduledMsg × ConstantGenerator
  unfolding next
  nexts zero g = ([], g)
  nexts (suc n) g = let (s, g') = next f g in let (rest, h) = nexts n g' in (s ∷ rest, h)

  -- The schedule in closed form: message `k` of any run is due after `k + 1` intervals, and its xid
  -- is the factory's counter after as many steps, modulo 2^32.
  pub get_elem?-nexts :
      (n k : ℕ) (g : ConstantGenerator)
      → k < n
      → get_elem? (nexts n g).0 k
        ≡ some (
            scheduled
              (g.base_time + g.local_ns + (k + 1) * g.inter_arrival_t)
              (gen_of f g.msg_factory.class ((g.msg_factory.cnt + (k + 1)) % 2 ^ 32)))
  unfolding nexts next make
  get_elem?-nexts zero k g h = absurd (omega arith)
  get_elem?-nexts (suc n) zero g h = ground arith
  get_elem?-nexts (suc n) (suc k) g h = ground (arith, get_elem?-nexts n k (next f g).1)

-- A quotient that lies within half a unit of `m / P` has the whole part of `m / P`, where the unit is
-- small against the divisor: it cannot be rounded up to a whole number that it does not reach.
whole_part :
    (n rate m P : ℕ)
    → 0 < rate
    → rate < 2 * P
    → 2 * (m * rate) ≤ 2 * (n * P) + rate
    → 2 * (n * P) ≤ 2 * (m * rate) + rate
    → m / P ≡ n / rate
whole_part n rate m P pos small low high =
    let q = n / rate in
    let fits : q * rate ≤ n = div-mul-le_self n rate in
    let ends : n < rate * (q + 1) = lt-mul-div-succ n pos in
    let below : q * P ≤ m = elim (dec_lt m (q * P)) [
      | yes short ↦
          let scaled : (m + 1) * rate ≤ q * P * rate = mul-le-mul_right rate (omega arith) in
          let within : q * rate * P ≤ n * P = mul-le-mul_right P fits in absurd (grind arith)
      | no long ↦ omega arith
    ] in
    let above : m < (q + 1) * P = elim (dec_lt m ((q + 1) * P)) [
      | yes less ↦ less
      | no long ↦
          let scaled : (q + 1) * P * rate ≤ m * rate = mul-le-mul_right rate (omega arith) in
          let beyond : (n + 1) * P ≤ rate * (q + 1) * P = mul-le-mul_right P (omega arith) in
          absurd (grind arith)
    ] in
    div-eq_of_lt-le P below above

-- The interval is what the division of doubles and the conversion to `uint32_t` give: `m / 2 ^ k` is
-- the double, with the 53 bits of its fraction in `m`, that is nearest to a second's nanoseconds
-- divided by a positive rate, and the interval is the whole part of this double.
pub inter_arrival-rounded :
    (rate m k : ℕ)
    → 0 < rate
    → 2 ^ 52 ≤ m
    → 2 * (m * rate) ≤ 2 * (second_ns * 2 ^ k) + rate
    → 2 * (second_ns * 2 ^ k) ≤ 2 * (m * rate) + rate
    → inter_arrival rate ≡ ok (m / 2 ^ k)
unfolding inter_arrival
inter_arrival-rounded rate m k positive bits low high =
    let big : 2 ^ 52 * rate ≤ m * rate = mul-le-mul_right rate bits in
    let some_rate : (rate == 0) ≡ false = ground arith in
    let same = whole_part second_ns rate m (2 ^ k) positive (omega arith) low high in
    rw (some_rate, inter_arrival) (ap ok (sym same))
