-- ===== src/Msg/Messages.antt =====
-- The messages that hvbench sends, and their factories (src/of/messages.hpp).
use hvbench.Base.{
  ℕ, ◌+◌, ◌%◌, ◌^◌, Bool, true, false, [], ◌∷◌, Text, codes, text_eqb, if◌then◌else◌,
}
use hvbench.Base.Int.{to_u32, negsuc}
use hvbench.External.Fluid.{Fluid, OfMessage, OutputAction}
use hvbench.Msg.Types.{
  Ofpt, feature_request, echo_request, stats_request_port, stats_request_flow, packet_out_udp,
  flow_mod,
}
use hvbench.Msg.Packets.{dropbox_pkt}

-- `AbstractOFMsg`.
pub record OfMsg : Type 0 where
  pub xid : ℕ
  pub type : Ofpt
  pub pkt : Text
  pub pkt_len : ℕ
  pub has_reply : Bool

-- `OutputAction act((uint16_t)2, 1024)`.
abbrev pub forward_to : ℕ → OutputAction
forward_to port = record { port = port; max_len = 1024 }

module _ (f : Fluid) where
  open f use {pack, packed_length, ofpfc_add, ofpp_none}

  -- The subclass's constructor, on what `gen` packed.
  packed : ℕ → Ofpt → Bool → OfMessage → OfMsg
  packed xid type has_reply m = record {
    xid = xid;
    type = type;
    pkt = pack m;
    pkt_len = packed_length m;
    has_reply = has_reply;
  }

  unfoldable pub feature_request_gen : ℕ → OfMsg
  unfolding packed
  feature_request_gen xid = packed xid feature_request true (OfMessage.features_request xid)

  unfoldable pub echo_request_gen : ℕ → OfMsg
  unfolding packed
  echo_request_gen xid = packed xid echo_request true (OfMessage.echo_request xid)

  unfoldable pub flow_mod_gen : ℕ → OfMsg
  unfolding packed
  flow_mod_gen xid = packed xid flow_mod false (
      OfMessage.flow_mod (record {
        xid = xid;
        cookie = 123;
        command = ofpfc_add;
        idle_timeout = 5000;
        hard_timeout = 5000;
        priority = 100;
        buffer_id = to_u32 (negsuc 0);
        out_port = ofpp_none;
        flags = 0;
        in_port = 1;
        actions = forward_to 2 ∷ [];
      }))

  unfoldable pub stats_request_port_gen : ℕ → OfMsg
  unfolding packed
  stats_request_port_gen xid =
      packed xid stats_request_port true (OfMessage.stats_request_port xid 0 1)

  unfoldable pub stats_request_flow_gen : ℕ → OfMsg
  unfolding packed
  stats_request_flow_gen xid =
      packed xid stats_request_flow true (OfMessage.stats_request_flow xid 0 0 2)

  unfoldable pub packet_out_udp_gen : ℕ → OfMsg
  unfolding packed
  packet_out_udp_gen xid =
      packed xid packet_out_udp false
        (OfMessage.packet_out xid 0xffffffff 1 dropbox_pkt (forward_to 2 ∷ []))

-- The subclasses of `AbstractOFMsgFactory`.
pub data FactoryClass : Type 0 where
  feature_request_factory echo_request_factory stats_request_port_factory : FactoryClass
  stats_request_flow_factory packet_out_udp_factory flow_mod_factory : FactoryClass

pub record Factory : Type 0 where
  pub class : FactoryClass
  -- `_cnt`, a `uint32_t`.
  pub cnt : ℕ

unfoldable pub alloc : FactoryClass → Factory
alloc c = record { class = c; cnt = 0 }

-- The `gen` that a class's `make` calls.
unfoldable pub gen_of : Fluid → FactoryClass → ℕ → OfMsg
unfolding feature_request_gen echo_request_gen stats_request_port_gen stats_request_flow_gen
    packet_out_udp_gen flow_mod_gen
gen_of f feature_request_factory = feature_request_gen f
gen_of f echo_request_factory = echo_request_gen f
gen_of f stats_request_port_factory = stats_request_port_gen f
gen_of f stats_request_flow_factory = stats_request_flow_gen f
gen_of f packet_out_udp_factory = packet_out_udp_gen f
gen_of f flow_mod_factory = flow_mod_gen f

-- `make()` of each class: the counter goes up, and is the message's xid.
unfoldable pub make : Fluid → Factory → OfMsg × Factory
unfolding gen_of
make f a = let n = (a.cnt + 1) % 2 ^ 32 in (gen_of f a.class n, record a { cnt = n })

unfoldable pub get_message_factory : Text → Factory
unfolding alloc
get_message_factory name =
    if text_eqb name (codes "FEATURE_REQUEST")
    then alloc feature_request_factory
    else if text_eqb name (codes "ECHO_REQUEST")
    then alloc echo_request_factory
    else if text_eqb name (codes "STATS_REQUEST_PORT")
    then alloc stats_request_port_factory
    else if text_eqb name (codes "STATS_REQUEST_FLOW")
    then alloc stats_request_flow_factory
    else if text_eqb name (codes "PACKET_OUT_UDP")
    then alloc packet_out_udp_factory
    else if text_eqb name (codes "FLOW_MOD")
    then alloc flow_mod_factory
    else alloc echo_request_factory

-- `time_point_t`, in nanoseconds since the epoch of the system clock.
abbrev pub Time : Type 0
Time = ℕ

pub record ScheduledMsg : Type 0 where
  pub time_ns : Time
  pub of_msg : OfMsg
  pub awaits_reply : Bool

-- Its constructor.
unfoldable pub scheduled : Time → OfMsg → ScheduledMsg
scheduled t m = record { time_ns = t; of_msg = m; awaits_reply = m.has_reply }
