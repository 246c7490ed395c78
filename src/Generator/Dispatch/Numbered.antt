-- ===== src/Generator/Dispatch/Numbered.antt =====
-- Generators number their messages one by one.
use mathlib.Core.Path.{subst}
use hvbench.Base.{
  ℕ, ◌+◌, ◌%◌, ◌^◌, ◌≡◌, refl, arith, Text, get_elem?, text_eqb, codes, Bool-cases, inl, inr,
}
use hvbench.Base.Result.{
  Result, ok, ok-injective, >>=-eq-ok, or_fault, past_the_end, bad_lexical_cast,
}
use hvbench.External.Boost.{Boost}
use hvbench.External.Random.{Random}
use hvbench.External.Fluid.{Fluid}
use hvbench.Msg.{
  Ofpt, feature_request, echo_request, stats_request_port, stats_request_flow, packet_out_udp,
  flow_mod,
}
use hvbench.Msg.Messages.{
  OfMsg, FactoryClass, feature_request_factory, echo_request_factory, stats_request_port_factory,
  stats_request_flow_factory, packet_out_udp_factory, flow_mod_factory, gen_of, Time, ScheduledMsg,
  scheduled,
}
use hvbench.Msg.Laws.{make_lem, gen_of_lem}
use hvbench.Generator.Constant
use hvbench.Generator.Tenant
use hvbench.Generator.Tenant.{TenantGenerator, gen_type}
use hvbench.Generator.Dispatch.{Generator, constant, tenant, next, update, set_time_reference}

made_xid :
    (f : Fluid) (c : FactoryClass) (n : ℕ) {m : OfMsg}
    → ◌≡◌ {A = Result OfMsg} (ok (gen_of f c n)) (ok m)
    → m.xid ≡ n
made_xid f c n h =
    let same = ok-injective (gen_of f c n) _ h in
    subst (λ (m : OfMsg). m.xid ≡ n) same (gen_of_lem f c n).1

gen_type_xid : (f : Fluid) (t : Ofpt) (n : ℕ) {m : OfMsg} → gen_type f t n ≡ ok m → m.xid ≡ n
unfolding gen_type gen_of
gen_type_xid f feature_request n h = made_xid f feature_request_factory n h
gen_type_xid f echo_request n h = made_xid f echo_request_factory n h
gen_type_xid f stats_request_port n h = made_xid f stats_request_port_factory n h
gen_type_xid f stats_request_flow n h = made_xid f stats_request_flow_factory n h
gen_type_xid f packet_out_udp n h = made_xid f packet_out_udp_factory n h
gen_type_xid f flow_mod n h = made_xid f flow_mod_factory n h
gen_type_xid f _ n h = absurd (cc)

module _ (r : Random) where
  -- The number of the last message, a `uint32_t`.
  abbrev pub last_xid : Generator r → ℕ
  last_xid (constant g) = g.msg_factory.cnt
  last_xid (tenant g) = g.idx

  pub next-last_xid :
      (f : Fluid) (g : Generator r) {m : ScheduledMsg} {g' : Generator r}
      → next r f g ≡ ok (m, g')
      → (m.of_msg.xid ≡ (last_xid g + 1) % 2 ^ 32) × (last_xid g' ≡ m.of_msg.xid)
  unfolding next Constant.next Tenant.next scheduled
  next-last_xid f (constant g) h = let (_, xid, cnt) = make_lem f g.msg_factory in ground arith
  next-last_xid f (tenant g) h =
      let ((s, g₁), drawn, last) = >>=-eq-ok (Tenant.next r f g) (λ p. ok (p.0, tenant p.1)) h in
      let (t, _, rest) =
        >>=-eq-ok (or_fault (get_elem? g.of_types (r.draw_index g.var_disc g.rng).0) past_the_end) _
          drawn in
      let (made, gen, e) = >>=-eq-ok (gen_type f t ((g.idx + 1) % 2 ^ 32)) _ rest in
      let xid = gen_type_xid f t ((g.idx + 1) % 2 ^ 32) gen in ground arith

  update_weight-idx :
      (key value : Text) (g : TenantGenerator r) {g' : TenantGenerator r}
      → Tenant.update_weight r key value g ≡ ok g'
      → g'.idx ≡ g.idx
  unfolding Tenant.update_weight Tenant.set_weight
  update_weight-idx key value g h = ground arith

  tenant_update-idx :
      (b : Boost) (key value : Text) (g : TenantGenerator r) {g' : TenantGenerator r}
      → Tenant.update r b key value g ≡ ok g'
      → g'.idx ≡ g.idx
  unfolding Tenant.update
  tenant_update-idx b key value g h = elim (Bool-cases (text_eqb key (codes "avg_rate"))) [
    | inl e ↦
        let (rate, _, made) =
          >>=-eq-ok (or_fault (b.cast_u32 value) bad_lexical_cast) _ (rw (e, Tenant.update) at h) in
        let (nd, _, rest) = >>=-eq-ok (Tenant.exponential_of r rate) _ made in
        update_weight-idx key value _ rest
    | inr e ↦ update_weight-idx key value g (rw (e, Tenant.update) at h)
  ]

  pub update-last_xid :
      (b : Boost) (key value : Text) (g : Generator r) {g' : Generator r}
      → update r b key value g ≡ ok g'
      → last_xid g' ≡ last_xid g
  unfolding update Constant.update
  update-last_xid b key value (constant g) h = ground arith
  update-last_xid b key value (tenant g) h =
      let (g₁, new, last) = >>=-eq-ok (Tenant.update r b key value g) (λ g₁. ok (tenant g₁)) h in
      let same = tenant_update-idx b key value g new in ground arith

  pub set_time_reference-last_xid :
      (t : Time) (g : Generator r) → last_xid (set_time_reference r t g) ≡ last_xid g
  unfolding set_time_reference
  set_time_reference-last_xid t (constant g) = refl
  set_time_reference-last_xid t (tenant g) = refl
