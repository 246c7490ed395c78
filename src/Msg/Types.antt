-- ===== src/Msg/Types.antt =====
-- `enum OFPT_T`, the kinds of messages, and the tables of their names (src/globals.h).
use mathlib.Core.Option.{some-injective}
use hvbench.Base.{
  ℕ, ◌≡◌, refl, sym, ap, ◌∙◌, ◌↔◌, Bool, true, ◌==◌, ==_iff, ltb, if◌then◌else◌, List, [], ◌∷◌,
  Option, none, some, Text, codes, Key,
}
use hvbench.Base.Dict.{Dict}

pub data Ofpt : Type 0 where
  packet_in features_reply echo_request stats_reply echo_reply hello error port_status : Ofpt
  feature_request stats_request_port stats_request_flow stats_request : Ofpt
  packet_out_udp flow_mod ofpt_unknown : Ofpt

-- The enumerator's value.
unfoldable pub value : Ofpt → ℕ
value packet_in = 10
value features_reply = 6
value echo_request = 2
value stats_reply = 17
value echo_reply = 3
value hello = 0
value error = 1
value port_status = 12
value feature_request = 99
value stats_request_port = 101
value stats_request_flow = 102
value stats_request = 103
value packet_out_udp = 104
value flow_mod = 105
value ofpt_unknown = 199

-- `std::map<OFPT_T, …>` compares the values.
unfoldable pub ofpt_eqb : Ofpt → Ofpt → Bool
unfolding value
ofpt_eqb a b = value a == value b

-- The enumerator that a `case` label compares a number with, if there is one.
unfoldable pub of_value : ℕ → Option Ofpt
of_value n =
    if n == 10
    then some packet_in
    else if n == 6
    then some features_reply
    else if n == 2
    then some echo_request
    else if n == 17
    then some stats_reply
    else if n == 3
    then some echo_reply
    else if n == 0
    then some hello
    else if n == 1
    then some error
    else if n == 12
    then some port_status
    else if n == 99
    then some feature_request
    else if n == 101
    then some stats_request_port
    else if n == 102
    then some stats_request_flow
    else if n == 103
    then some stats_request
    else if n == 104
    then some packet_out_udp
    else if n == 105
    then some flow_mod
    else if n == 199
    then some ofpt_unknown
    else none

of_value-value : (a : Ofpt) → of_value (value a) ≡ some a
unfolding of_value value
of_value-value packet_in = refl
of_value-value features_reply = refl
of_value-value echo_request = refl
of_value-value stats_reply = refl
of_value-value echo_reply = refl
of_value-value hello = refl
of_value-value error = refl
of_value-value port_status = refl
of_value-value feature_request = refl
of_value-value stats_request_port = refl
of_value-value stats_request_flow = refl
of_value-value stats_request = refl
of_value-value packet_out_udp = refl
of_value-value flow_mod = refl
of_value-value ofpt_unknown = refl

pub ofpt_eqb_iff : (a b : Ofpt) → (ofpt_eqb a b ≡ true) ↔ (a ≡ b)
unfolding ofpt_eqb
ofpt_eqb_iff a b = (
  λ h.
      some-injective a b (
        sym (of_value-value a) ∙ ap of_value ((==_iff (value a) (value b)).0 h) ∙ of_value-value b),
  λ e. (==_iff (value a) (value b)).1 (ap value e),
)

instance abbrev pub ofpt_key : Key Ofpt
ofpt_key = record { eqb = ofpt_eqb; less = λ a b. ltb (value a) (value b); eqb_iff = ofpt_eqb_iff }

-- `OFPT::STR`. It is only read by key, so the order of the entries does not matter.
unfoldable pub str : Dict Ofpt Text
str =
    (packet_out_udp, codes "PACKET_OUT_UDP")
    ∷ (echo_request, codes "ECHO_REQUEST")
    ∷ (feature_request, codes "FEATURE_REQUEST")
    ∷ (stats_request, codes "STATS_REQUEST")
    ∷ (flow_mod, codes "FLOW_MOD")
    ∷ (stats_request_port, codes "STATS_REQUEST_PORT")
    ∷ (stats_request_flow, codes "STATS_REQUEST_FLOW")
    ∷ []

-- `OFPT::RSTR`.
unfoldable pub rstr : Dict Text Ofpt
rstr =
    (codes "PACKET_OUT_UDP", packet_out_udp)
    ∷ (codes "ECHO_REQUEST", echo_request)
    ∷ (codes "FEATURE_REQUEST", feature_request)
    ∷ (codes "STATS_REQUEST", stats_request)
    ∷ (codes "FLOW_MOD", flow_mod)
    ∷ (codes "STATS_REQUEST_PORT", stats_request_port)
    ∷ (codes "STATS_REQUEST_FLOW", stats_request_flow)
    ∷ []

-- The kinds that a generator sends.
abbrev pub req_types : List Ofpt
req_types =
    feature_request ∷ echo_request ∷ stats_request_port ∷ stats_request_flow ∷ packet_out_udp
    ∷ flow_mod ∷ []

-- The kinds whose response time is measured.
abbrev pub latency_types : List Ofpt
latency_types = feature_request ∷ echo_request ∷ stats_request_port ∷ stats_request_flow ∷ []
