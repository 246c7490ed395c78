-- ===== src/Generator/Abstract.antt =====
-- What every generator has (src/generators/AbstractGenerator.hpp, `AbstractGenerator`).
pub mod Laws
use hvbench.Base.{ℕ, ◌+◌, ◌%◌, ◌^◌, [], ◌∷◌, none, some}
use hvbench.Base.Dict.{Dict, lookup, insert}
use hvbench.Msg.{Ofpt, ofpt_key}
use hvbench.Msg.Messages.{Time, ScheduledMsg}

pub record AbstractGenerator : Type 0 where
  pub base_time : Time
  pub counters : Dict Ofpt ℕ

-- The default constructor: a time point is the epoch.
unfoldable pub abstract_generator : AbstractGenerator
abstract_generator = record { base_time = 0; counters = [] }

unfoldable pub set_time_reference : AbstractGenerator → Time → AbstractGenerator
set_time_reference g t = record g { base_time = t }

-- `count(msg)`; the counters are `uint32_t`.
unfoldable pub count : AbstractGenerator → ScheduledMsg → AbstractGenerator
unfolding lookup insert
count g m = elim (lookup m.of_msg.type g.counters) [
  | none ↦ record g { counters = insert m.of_msg.type 1 g.counters }
  | some n ↦ record g { counters = insert m.of_msg.type ((n + 1) % 2 ^ 32) g.counters }
]

-- `for (auto& iter : _counters) iter.second = 0`.
zeros : Dict Ofpt ℕ → Dict Ofpt ℕ
zeros [] = []
zeros ((t, n) ∷ m) = (t, 0) ∷ zeros m

unfoldable pub reset_counters : AbstractGenerator → AbstractGenerator
unfolding zeros
reset_counters g = record g { counters = zeros g.counters }
