-- ===== src/Generator/Dispatch/Sized.antt =====
-- The length that a generated message states is that of its bytes.
use mathlib.Core.Path.{subst}
use hvbench.Base.{ℕ, ◌+◌, ◌%◌, ◌^◌, ◌≡◌, arith, length, get_elem?}
use hvbench.Base.Result.{Result, ok, ok-injective, >>=-eq-ok, or_fault, past_the_end}
use hvbench.External.Random.{Random}
use hvbench.External.Fluid.{Fluid}
use hvbench.Msg.{
  Ofpt, feature_request, echo_request, stats_request_port, stats_request_flow, packet_out_udp,
  flow_mod,
}
use hvbench.Msg.Messages.{
  OfMsg, FactoryClass, feature_request_factory, echo_request_factory, stats_request_port_factory,
  stats_request_flow_factory, packet_out_udp_factory, flow_mod_factory, gen_of, ScheduledMsg,
  scheduled,
}
use hvbench.Msg.Laws.{make_lem, gen_of_lem}
use hvbench.Generator.Constant
use hvbench.Generator.Tenant
use hvbench.Generator.Tenant.{TenantGenerator, gen_type}
use hvbench.Generator.Dispatch.{Generator, constant, tenant, next}

abbrev pub IsSized : OfMsg → Type 0
IsSized m = m.pkt_len ≡ length m.pkt

made-IsSized :
    (f : Fluid) (c : FactoryClass) (n : ℕ) {m : OfMsg}
    → ◌≡◌ {A = Result OfMsg} (ok (gen_of f c n)) (ok m)
    → IsSized m
made-IsSized f c n h =
    let same = ok-injective (gen_of f c n) _ h in subst IsSized same (gen_of_lem f c n).0

gen_type-IsSized : (f : Fluid) (t : Ofpt) (n : ℕ) {m : OfMsg} → gen_type f t n ≡ ok m → IsSized m
unfolding gen_type gen_of
gen_type-IsSized f feature_request n h = made-IsSized f feature_request_factory n h
gen_type-IsSized f echo_request n h = made-IsSized f echo_request_factory n h
gen_type-IsSized f stats_request_port n h = made-IsSized f stats_request_port_factory n h
gen_type-IsSized f stats_request_flow n h = made-IsSized f stats_request_flow_factory n h
gen_type-IsSized f packet_out_udp n h = made-IsSized f packet_out_udp_factory n h
gen_type-IsSized f flow_mod n h = made-IsSized f flow_mod_factory n h
gen_type-IsSized f _ n h = absurd (cc)

module _ (r : Random) where
  pub next-IsSized :
      (f : Fluid) (g : Generator r) {m : ScheduledMsg} {g' : Generator r}
      → next r f g ≡ ok (m, g')
      → IsSized m.of_msg
  unfolding next Constant.next Tenant.next scheduled
  next-IsSized f (constant g) h = let (sized, _, _) = make_lem f g.msg_factory in ground arith
  next-IsSized f (tenant g) {m} h =
      let ((s, g₁), drawn, last) = >>=-eq-ok (Tenant.next r f g) (λ p. ok (p.0, tenant p.1)) h in
      let (t, _, rest) =
        >>=-eq-ok (or_fault (get_elem? g.of_types (r.draw_index g.var_disc g.rng).0) past_the_end) _
          drawn in
      let (made, gen, e) = >>=-eq-ok (gen_type f t ((g.idx + 1) % 2 ^ 32)) _ rest in
      let sized = gen_type-IsSized f t ((g.idx + 1) % 2 ^ 32) gen in ground arith
