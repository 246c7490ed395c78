-- ===== src/Generator/Tenant.antt =====
-- `TenantGenerator` (src/generators/TenantGenerator.hpp): a weighted mix of kinds, with
-- exponential times between messages.
pub mod Valid
use hvbench.Base.{
  ℕ, suc, ◌+◌, ◌*◌, ◌%◌, ◌^◌, List, [], ◌∷◌, Option, none, some, Text, text_key, codes, text_eqb,
  get_elem?, set, ◌==◌, ◌=?◌, if◌then◌else◌,
}
use hvbench.Base.Result.{
  Result, ok, fault, bad_lexical_cast, past_the_end, assertion, or_fault, ◌>>=◌,
}
use hvbench.Base.Dict.{lookup}
use hvbench.External.Boost.{Boost}
use hvbench.External.Random.{Random}
use hvbench.External.Fluid.{Fluid}
use hvbench.Msg.{
  Ofpt, ofpt_key, rstr, feature_request, echo_request, stats_request_port, stats_request_flow,
  packet_out_udp, flow_mod,
}
use hvbench.Msg.Messages.{
  Time, OfMsg, ScheduledMsg, scheduled, feature_request_gen, echo_request_gen,
  stats_request_port_gen, stats_request_flow_gen, packet_out_udp_gen, flow_mod_gen,
}
use hvbench.Generator.Abstract.{AbstractGenerator, abstract_generator, count}

-- A `variate_generator` holds a copy of its distribution and refers to the one engine. The member
-- `_rate` is never read.
pub record TenantGenerator (r : Random) : Type 0 where
  pub base : AbstractGenerator
  pub open base use *
  pub weights : List r.Float
  pub of_types : List Ofpt
  pub rng : r.Rng
  pub nd : r.Exponential
  pub var_exp : r.Exponential
  pub discrete_nd : r.Discrete_dist
  pub var_disc : r.Discrete_dist
  -- In microseconds.
  pub next_msg : ℕ
  pub idx : ℕ

-- `_of_types` position of a kind, as `std::find` and `std::distance` give it.
unfoldable pub index_of : Ofpt → List Ofpt → Option ℕ
index_of t [] = none
index_of t (x ∷ xs) =
    let rest = index_of t xs in
    if x =? t then some 0 else elim rest [ none ↦ none | some i ↦ some (suc i) ]

-- The `switch` of `next`.
unfoldable pub gen_type : Fluid → Ofpt → ℕ → Result OfMsg
unfolding feature_request_gen echo_request_gen stats_request_port_gen stats_request_flow_gen
    packet_out_udp_gen flow_mod_gen
gen_type f feature_request xid = ok (feature_request_gen f xid)
gen_type f echo_request xid = ok (echo_request_gen f xid)
gen_type f stats_request_port xid = ok (stats_request_port_gen f xid)
gen_type f stats_request_flow xid = ok (stats_request_flow_gen f xid)
gen_type f packet_out_udp xid = ok (packet_out_udp_gen f xid)
gen_type f flow_mod xid = ok (flow_mod_gen f xid)
gen_type f _ xid = fault assertion

module _ (r : Random) where
  -- `exponential_distribution<>(rate)`, which asserts that the rate is positive.
  abbrev pub exponential_of : ℕ → Result r.Exponential
  exponential_of rate = if rate == 0 then fault assertion else ok (r.exponential rate)

  -- The members that the constructor makes of a distribution.
  unfoldable pub with_rate : ℕ → ℕ → r.Exponential → List Ofpt → List r.Float → TenantGenerator r
  unfolding abstract_generator
  with_rate old seed nd of_types weights =
      let (us, rng) = r.draw_us nd (r.seeded seed) in
      record {
        base = abstract_generator;
        weights = weights;
        of_types = of_types;
        rng = rng;
        nd = nd;
        var_exp = nd;
        discrete_nd = r.discrete weights;
        var_disc = r.discrete weights;
        next_msg = old + us;
        idx = 0;
      }

  -- The constructor; `seed` is `std::time(NULL)`, and `old` is what `_next_msg` holds at first, which
  -- no initializer sets.
  unfoldable pub create : ℕ → ℕ → ℕ → List Ofpt → List r.Float → Result (TenantGenerator r)
  unfolding with_rate
  create old seed rate of_types weights = do
    nd ← exponential_of rate
    ok (with_rate old seed nd of_types weights)

  unfoldable pub peek : TenantGenerator r → Time
  peek g = g.base_time + g.next_msg * 1000

  unfoldable pub next : Fluid → TenantGenerator r → Result (ScheduledMsg × TenantGenerator r)
  unfolding gen_type scheduled count
  next f g = do
    let n = (g.idx + 1) % 2 ^ 32
    let (i, rng) = r.draw_index g.var_disc g.rng
    next_type ← or_fault (get_elem? g.of_types i) past_the_end
    m ← gen_type f next_type n
    let s = scheduled (g.base_time + g.next_msg * 1000) m
    let (us, rng') = r.draw_us g.var_exp rng
    ok (s, record g { base = count g.base s; rng = rng'; next_msg = g.next_msg + us; idx = n })

  -- A new weight, at the position of its kind.
  unfoldable pub set_weight : ℕ → r.Float → TenantGenerator r → TenantGenerator r
  set_weight i w g =
      let weights = set g.weights i w in
      record g {
        weights = weights;
        discrete_nd = r.discrete weights;
        var_disc = r.discrete weights;
      }

  -- The part of `update` for a weight; both early returns only print.
  unfoldable pub update_weight : Text → Text → TenantGenerator r → Result (TenantGenerator r)
  unfolding lookup index_of set_weight
  update_weight key value g = elim (lookup key rstr) [
    | none ↦ ok g
    | some t ↦ elim (index_of t g.of_types) [
      | none ↦ ok g
      | some i ↦ do w ← or_fault (r.cast_float value) bad_lexical_cast; ok (set_weight i w g)
    ]
  ]

  -- `update`: the branch for the rate falls through to the weights.
  unfoldable pub update : Boost → Text → Text → TenantGenerator r → Result (TenantGenerator r)
  unfolding update_weight
  update b key value g =
      if text_eqb key (codes "avg_rate")
      then (do
        rate ← or_fault (b.cast_u32 value) bad_lexical_cast
        nd ← exponential_of rate
        update_weight key value (record g { nd = nd; var_exp = nd }))
      else update_weight key value g
