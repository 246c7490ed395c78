-- ===== src/Msg/Laws.antt =====
-- The name tables invert one another, and the factories make what they are named for.
use mathlib.Core.Option.{some-injective}
use hvbench.Base.{
  ℕ, ◌+◌, ◌%◌, ◌^◌, ◌≡◌, refl, sym, ◌↔◌, Bool, true, false, ◌||◌, List, [], ◌∷◌, some, arith, Text,
  text_eqb, length, text_key, ◌=?◌,
}
use hvbench.Base.Dict.{lookup, lookup-All}
use hvbench.External.Fluid.{Fluid}
use hvbench.Msg.Types.{
  Ofpt, str, rstr, ofpt_eqb, ofpt_key, req_types, latency_types, feature_request, echo_request,
  stats_request_port, stats_request_flow, packet_out_udp, flow_mod,
}
use hvbench.Msg.Messages.{
  Factory, FactoryClass, make, gen_of, get_message_factory, feature_request_factory,
  echo_request_factory, stats_request_port_factory, stats_request_flow_factory,
  packet_out_udp_factory, flow_mod_factory,
}

-- The list holds the kind.
unfoldable pub contains : List Ofpt → Ofpt → Bool
contains [] t = false
contains (x ∷ xs) t = x =? t || contains xs t

-- A kind that a generator sends.
abbrev pub IsRequest : Ofpt → Type 0
IsRequest t = contains req_types t ≡ true

-- A kind that `STR` names.
abbrev pub IsNamed : Ofpt → Type 0
IsNamed t = (name : Text) × (lookup t str ≡ some name)

pub IsRequest-IsNamed : (t : Ofpt) → IsRequest t → IsNamed t
unfolding contains ofpt_eqb str lookup
IsRequest-IsNamed feature_request h = (_, refl)
IsRequest-IsNamed echo_request h = (_, refl)
IsRequest-IsNamed stats_request_port h = (_, refl)
IsRequest-IsNamed stats_request_flow h = (_, refl)
IsRequest-IsNamed packet_out_udp h = (_, refl)
IsRequest-IsNamed flow_mod h = (_, refl)
IsRequest-IsNamed _ h = absurd (cc)

pub gen_of-IsRequest : (f : Fluid) (c : FactoryClass) (xid : ℕ) → IsRequest (gen_of f c xid).type
unfolding gen_of contains ofpt_eqb
gen_of-IsRequest f feature_request_factory xid = refl
gen_of-IsRequest f echo_request_factory xid = refl
gen_of-IsRequest f stats_request_port_factory xid = refl
gen_of-IsRequest f stats_request_flow_factory xid = refl
gen_of-IsRequest f packet_out_udp_factory xid = refl
gen_of-IsRequest f flow_mod_factory xid = refl

-- A kind has a name in `STR` exactly if the name has that kind in `RSTR`.
pub lookup-str_iff : (t : Ofpt) (s : Text) → (lookup t str ≡ some s) ↔ (lookup s rstr ≡ some t)
unfolding str rstr lookup ofpt_eqb text_eqb
lookup-str_iff t s = (
  lookup-All (λ e. lookup e.1 rstr ≡ some e.0) t str
      (refl, (refl, (refl, (refl, (refl, (refl, (refl, tt))))))),
  lookup-All (λ e. lookup e.1 str ≡ some e.0) s rstr
      (refl, (refl, (refl, (refl, (refl, (refl, (refl, tt))))))),
)

-- The factory that a request kind's name selects makes messages of that kind, which await a reply
-- exactly if the kind's response time is measured.
pub make-get_message_factory :
    (f : Fluid) (t : Ofpt) (name : Text)
    → contains req_types t ≡ true
    → lookup t str ≡ some name
    → ((make f (get_message_factory name)).0.type ≡ t)
      × ((make f (get_message_factory name)).0.has_reply ≡ contains latency_types t)
unfolding str lookup ofpt_eqb text_eqb contains make get_message_factory
make-get_message_factory f feature_request name r h = rw (← some-injective _ _ h) (refl, refl)
make-get_message_factory f echo_request name r h = rw (← some-injective _ _ h) (refl, refl)
make-get_message_factory f stats_request_port name r h = rw (← some-injective _ _ h) (refl, refl)
make-get_message_factory f stats_request_flow name r h = rw (← some-injective _ _ h) (refl, refl)
make-get_message_factory f packet_out_udp name r h = rw (← some-injective _ _ h) (refl, refl)
make-get_message_factory f flow_mod name r h = rw (← some-injective _ _ h) (refl, refl)
make-get_message_factory f _ name r h = absurd (cc)

pub gen_of_lem :
    (f : Fluid) (c : FactoryClass) (xid : ℕ)
    → ((gen_of f c xid).pkt_len ≡ length (gen_of f c xid).pkt) × ((gen_of f c xid).xid ≡ xid)
unfolding gen_of
gen_of_lem f feature_request_factory xid = (sym (f.length-pack _), refl)
gen_of_lem f _ xid = (sym (f.length-pack _), refl)

-- Whatever the class, a message's length is that of its bytes, and its xid the factory's new
-- counter.
pub make_lem :
    (f : Fluid) (a : Factory)
    → ((make f a).0.pkt_len ≡ length (make f a).0.pkt)
      × ((make f a).0.xid ≡ (a.cnt + 1) % 2 ^ 32)
      × ((make f a).1.cnt ≡ (make f a).0.xid)
unfolding make
make_lem f a = ground (arith, gen_of_lem f a.class ((a.cnt + 1) % 2 ^ 32))
