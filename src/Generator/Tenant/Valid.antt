-- ===== src/Generator/Tenant/Valid.antt =====
-- What `TenantGenerator` keeps of its members, so that `next` never fails.
use mathlib.Core.Path.{subst}
use hvbench.Base.{
  ℕ, ◌+◌, ◌*◌, ◌%◌, ◌^◌, ◌≤◌, ◌<◌, ◌≡◌, refl, sym, ◌∙◌, ◌≢◌, List, [], arith, Text, length,
  length-set, set-ne-nil, get_elem?-All, All, Bool-cases, Option-cases, inl, inr, codes, text_eqb,
  text_key,
}
use hvbench.Base.Result.{Result, ok, bad_lexical_cast, or_fault, >>=-eq-ok}
use hvbench.Base.Dict.{lookup}
use hvbench.External.Boost.{Boost}
use hvbench.External.Random.{Random}
use hvbench.External.Fluid.{Fluid}
use hvbench.Msg.{
  Ofpt, ofpt_key, ofpt_eqb, rstr, feature_request, echo_request, stats_request_port,
  stats_request_flow, packet_out_udp, flow_mod,
}
use hvbench.Msg.Messages.{OfMsg, ScheduledMsg, scheduled}
use hvbench.Msg.Laws.{contains, IsRequest}
use hvbench.Generator.Abstract.{count}
use hvbench.Generator.Abstract.Laws.{base_time-count}
use hvbench.Generator.Tenant.{
  TenantGenerator, index_of, gen_type, exponential_of, with_rate, create, peek, next, set_weight,
  update_weight, update,
}

-- The `switch` of `next` has a case for each kind that is sent.
gen_type-IsRequest :
    (f : Fluid) (t : Ofpt) (xid : ℕ)
    → IsRequest t
    → (m : OfMsg) × (gen_type f t xid ≡ ok m) × (m.type ≡ t) × (m.xid ≡ xid)
unfolding gen_type contains ofpt_eqb
gen_type-IsRequest f feature_request xid h = (_, refl, refl, refl)
gen_type-IsRequest f echo_request xid h = (_, refl, refl, refl)
gen_type-IsRequest f stats_request_port xid h = (_, refl, refl, refl)
gen_type-IsRequest f stats_request_flow xid h = (_, refl, refl, refl)
gen_type-IsRequest f packet_out_udp xid h = (_, refl, refl, refl)
gen_type-IsRequest f flow_mod xid h = (_, refl, refl, refl)
gen_type-IsRequest f _ xid h = absurd (cc)

module _ (r : Random) where
  -- A weight for each kind, all kinds known to `next`, and a draw by the weights.
  pub record IsValid (g : TenantGenerator r) : Type 0 where
    pub requests : All IsRequest g.of_types
    pub weighted : length g.weights ≡ length g.of_types
    pub some_weight : g.weights ≢ []
    pub drawn : g.var_disc ≡ r.discrete g.weights

  pub create-IsValid :
      (old seed rate : ℕ) (of_types : List Ofpt) (weights : List r.Float) {g : TenantGenerator r}
      → create r old seed rate of_types weights ≡ ok g
      → All IsRequest of_types
      → length weights ≡ length of_types
      → weights ≢ []
      → IsValid g
  unfolding create with_rate
  create-IsValid old seed rate of_types weights {g} h all same some_weight =
      let (nd, _, last) = >>=-eq-ok (exponential_of r rate) _ h in
      let made : with_rate r old seed nd of_types weights ≡ g = ground arith in
      subst IsValid made
        (record { requests = all; weighted = same; some_weight = some_weight; drawn = refl })

  -- A message that is drawn: of a known kind, due when `peek` said, with the next number as its
  -- xid, and with the generator behind it due no earlier.
  abbrev pub Draws : TenantGenerator r → Result (ScheduledMsg × TenantGenerator r) → Type 0
  Draws g d =
      (m : ScheduledMsg) × (g' : TenantGenerator r) × (d ≡ ok (m, g'))
      × IsRequest m.of_msg.type
      × (m.time_ns ≡ peek r g)
      × (m.of_msg.xid ≡ (g.idx + 1) % 2 ^ 32)
      × (g'.idx ≡ m.of_msg.xid)
      × (peek r g ≤ peek r g')
      × IsValid g'

  -- `next` of a valid generator always gives a message.
  pub next-IsValid : (f : Fluid) (g : TenantGenerator r) → IsValid g → Draws g (next r f g)
  unfolding next peek scheduled
  next-IsValid f g v =
      let n = (g.idx + 1) % 2 ^ 32 in
      let drawn_lt : (r.draw_index g.var_disc g.rng).0 < length g.of_types =
        rw (v.drawn, ← v.weighted) (r.draw_index-lt g.weights g.rng v.some_weight) in
      let (t, found, request) =
        get_elem?-All IsRequest g.of_types (r.draw_index g.var_disc g.rng).0 drawn_lt v.requests in
      let (m, made, type, xid) = gen_type-IsRequest f t n request in
      let s = scheduled (g.base.base_time + g.next_msg * 1000) m in
      let (us, rng') = r.draw_us g.var_exp (r.draw_index g.var_disc g.rng).1 in
      (
        s,
        record g { base = count g.base s; rng = rng'; next_msg = g.next_msg + us; idx = n },
        rw (next, found, made) refl,
        rw type request,
        refl,
        xid,
        sym xid,
        (let same = base_time-count g.base s in omega arith),
        record {
          requests = v.requests;
          weighted = v.weighted;
          some_weight = v.some_weight;
          drawn = v.drawn;
        },
      )

  set_weight-IsValid :
      (i : ℕ) (w : r.Float) (g : TenantGenerator r) → IsValid g → IsValid (set_weight r i w g)
  unfolding set_weight
  set_weight-IsValid i w g v = record {
    requests = v.requests;
    weighted = length-set g.weights i w ∙ v.weighted;
    some_weight = set-ne-nil g.weights i w v.some_weight;
    drawn = refl;
  }

  update_weight-IsValid :
      (key value : Text) (g : TenantGenerator r) {g' : TenantGenerator r}
      → update_weight r key value g ≡ ok g'
      → IsValid g
      → IsValid g'
  unfolding update_weight
  update_weight-IsValid key value g {g'} h v = elim (Option-cases (lookup key rstr)) [
    | inl unknown ↦ let same : g ≡ g' = ground arith in subst IsValid same v
    | inr (t, known) ↦ elim (Option-cases (index_of t g.of_types)) [
      | inl absent ↦ let same : g ≡ g' = ground arith in subst IsValid same v
      | inr (i, at) ↦
          let (w, cast, last) =
            >>=-eq-ok (or_fault (r.cast_float value) bad_lexical_cast)
              (λ w. ok (set_weight r i w g)) (rw (known, update_weight, at) at h) in
          let same : set_weight r i w g ≡ g' = ground arith in
          subst IsValid same (set_weight-IsValid i w g v)
    ]
  ]

  -- A change of the rate or of a weight keeps a generator valid.
  pub update-IsValid :
      (b : Boost) (key value : Text) (g : TenantGenerator r) {g' : TenantGenerator r}
      → update r b key value g ≡ ok g'
      → IsValid g
      → IsValid g'
  unfolding update
  update-IsValid b key value g h v = elim (Bool-cases (text_eqb key (codes "avg_rate"))) [
    | inl e ↦
        let (rate, cast, last) =
          >>=-eq-ok (or_fault (b.cast_u32 value) bad_lexical_cast) _ (rw (e, update) at h) in
        let (nd, _, last_) = >>=-eq-ok (exponential_of r rate) _ last in
        update_weight-IsValid key value (record g { nd = nd; var_exp = nd }) last_
          (record {
            requests = v.requests;
            weighted = v.weighted;
            some_weight = v.some_weight;
            drawn = v.drawn;
          })
    | inr e ↦ update_weight-IsValid key value g (rw (e, update) at h) v
  ]
