-- ===== src/External/Random.antt =====
-- Boost.Random: one Mersenne twister, the two distributions drawn from it, and the `float` that
-- weighs a message type.
use hvbench.Base.{ℕ, ◌<◌, List, [], Text, length, ◌≢◌, Option}

pub record Random : Type 1 where
  pub Rng : Type 0
  -- `mt19937(seed)`.
  pub seeded : ℕ → Rng
  -- `exponential_distribution<>(rate)`.
  pub Exponential : Type 0
  pub exponential : ℕ → Exponential
  -- `static_cast<uint64_t>(draw * 1000000.)`, where the draw is a `double` in seconds.
  pub draw_us : Exponential → Rng → ℕ × Rng
  -- `lexical_cast<float>`.
  pub Float : Type 0
  pub cast_float : Text → Option Float
  -- `discrete_distribution<>(weights)`, which draws an index of the weights.
  pub Discrete_dist : Type 0
  pub discrete : List Float → Discrete_dist
  pub draw_index : Discrete_dist → Rng → ℕ × Rng
  pub draw_index-lt :
      (ws : List Float) (g : Rng) → ws ≢ [] → (draw_index (discrete ws) g).0 < length ws
