-- ===== src/External/Accumulators.antt =====
-- Boost.Accumulators: `accumulator_set<uint32_t, features<max, mean, min, count>>`.
use hvbench.Base.{ℕ, ◌+◌, ◌≤◌, ◌≡◌, ◌≢◌}

pub record Accumulators : Type 1 where
  pub Acc : Type 0
  pub fresh : Acc
  -- `acc(sample)`.
  pub add : Acc → ℕ → Acc
  pub count : Acc → ℕ
  -- `static_cast<uint64_t>(mean(acc))`; the mean is a `double`.
  pub mean : Acc → ℕ
  pub min : Acc → ℕ
  pub max : Acc → ℕ
  pub count-fresh : count fresh ≡ 0
  pub count-add : (a : Acc) (x : ℕ) → count (add a x) ≡ count a + 1
  pub min-le : (a : Acc) (x : ℕ) → min (add a x) ≤ x
  pub max-le : (a : Acc) (x : ℕ) → x ≤ max (add a x)
  pub min-mono : (a : Acc) (x : ℕ) → count a ≢ 0 → min (add a x) ≤ min a
  pub max-mono : (a : Acc) (x : ℕ) → count a ≢ 0 → max a ≤ max (add a x)
