-- ===== src/Generator/Abstract/Laws.antt =====
-- What `count` does to the counter of each kind.
use hvbench.Base.{
  ℕ, ◌+◌, ◌%◌, ◌^◌, ◌≡◌, inl, inr, true, Option-cases, none, some, arith, if◌then◌else◌, ◌=?◌,
}
use hvbench.Base.Dict.{lookup, get_or, get_or-insert}
use hvbench.Msg.{Ofpt, ofpt_key, ofpt_eqb_iff}
use hvbench.Msg.Messages.{ScheduledMsg}
use hvbench.Generator.Abstract.{AbstractGenerator, count}

get_or_found :
    (t k : Ofpt) (g : AbstractGenerator) (n : ℕ)
    → lookup t g.counters ≡ some n
    → (t =? k) ≡ true
    → get_or k 0 g.counters ≡ n
unfolding get_or
get_or_found t k g n e same = rw (← (ofpt_eqb_iff t k).0 same) (rw (e, get_or))

get_or_missing :
    (t k : Ofpt) (g : AbstractGenerator)
    → lookup t g.counters ≡ none
    → (t =? k) ≡ true
    → get_or k 0 g.counters ≡ 0
unfolding get_or
get_or_missing t k g e same = rw (← (ofpt_eqb_iff t k).0 same) (rw (e, get_or))

-- `count` adds one to the counter of the message's kind, as a `uint32_t` that was 0 if it was not
-- there, and leaves the others.
pub get_or-count :
    (k : Ofpt) (g : AbstractGenerator) (m : ScheduledMsg)
    → get_or k 0 (count g m).counters
      ≡ (if m.of_msg.type =? k then (get_or k 0 g.counters + 1) % 2 ^ 32 else get_or k 0 g.counters)
unfolding count
get_or-count k g m = elim (Option-cases (lookup m.of_msg.type g.counters)) [
  | inl e ↦
      rw (e, count)
        (ground
          (arith, get_or-insert m.of_msg.type k 1 0 g.counters, get_or_missing m.of_msg.type k g e))
  | inr (n, e) ↦
      rw (e, count)
        (ground (
          arith,
          get_or-insert m.of_msg.type k ((n + 1) % 2 ^ 32) 0 g.counters,
          get_or_found m.of_msg.type k g n e,
        ))
]

pub base_time-count :
    (g : AbstractGenerator) (m : ScheduledMsg) → (count g m).base_time ≡ g.base_time
unfolding count
base_time-count g m = ground arith
