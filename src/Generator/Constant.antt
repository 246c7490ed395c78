-- ===== src/Generator/Constant.antt =====
-- `ConstantGenerator` (src/generators/ConstantGenerator.hpp): one kind of message at a fixed rate.
pub mod Schedule
use hvbench.Base.{ℕ, ◌+◌, ◌/◌, ◌==◌, false, Text, codes, text_eqb, if◌then◌else◌}
use hvbench.Base.Result.{Result, ok, fault, bad_lexical_cast, undefined_conversion, or_fault, ◌>>=◌}
use hvbench.External.Boost.{Boost}
use hvbench.External.Fluid.{Fluid}
use hvbench.Etcd.{Server, etcd_get}
use hvbench.Msg.Messages.{Time, ScheduledMsg, scheduled, Factory, make, get_message_factory}
use hvbench.Generator.Abstract.{AbstractGenerator, abstract_generator, count}

pub record ConstantGenerator : Type 0 where
  pub base : AbstractGenerator
  pub open base use *
  -- In nanoseconds.
  pub inter_arrival_t : ℕ
  pub local_ns : ℕ
  pub msg_factory : Factory

abbrev pub second_ns : ℕ
second_ns = 1_000_000_000

-- `(uint32_t)(1000000000. / (double)rate)`: the quotient of two such numbers rounds to a `double`
-- with the same whole part, and at a rate of 0 it is infinite, so the conversion has no value.
unfoldable pub inter_arrival : ℕ → Result ℕ
inter_arrival rate = if rate == 0 then fault undefined_conversion else ok (second_ns / rate)

-- The constructor.
unfoldable pub create : Boost → Server → Text → Result ConstantGenerator
unfolding etcd_get inter_arrival abstract_generator get_message_factory
create b etcd basep = do
  rate_text ← etcd_get b etcd basep (codes "avg_rate") false
  avg_rate ← or_fault (b.cast_u32 rate_text) bad_lexical_cast
  msg_t ← etcd_get b etcd basep (codes "msg_t") false
  t ← inter_arrival avg_rate
  ok (record {
    base = abstract_generator;
    inter_arrival_t = t;
    local_ns = 0;
    msg_factory = get_message_factory msg_t;
  })

unfoldable pub peek : ConstantGenerator → Time
peek g = g.base_time + g.local_ns + g.inter_arrival_t

unfoldable pub next : Fluid → ConstantGenerator → ScheduledMsg × ConstantGenerator
unfolding make scheduled count
next f g =
    let t = g.local_ns + g.inter_arrival_t in
    let (m, factory) = make f g.msg_factory in
    let s = scheduled (g.base_time + t) m in
    (s, record g { base = count g.base s; local_ns = t; msg_factory = factory })

unfoldable pub update : Boost → Text → Text → ConstantGenerator → Result ConstantGenerator
unfolding inter_arrival
update b key value g =
    if text_eqb key (codes "avg_rate")
    then (do
      new_avg_rate ← or_fault (b.cast_u32 value) bad_lexical_cast
      t ← inter_arrival new_avg_rate
      ok (record g { inter_arrival_t = t }))
    else ok g
