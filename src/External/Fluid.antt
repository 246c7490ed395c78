-- ===== src/External/Fluid.antt =====
-- libfluid: the OpenFlow 1.0 messages as src/ builds them, what it reads out of a received one,
-- and the settings of a server.
use hvbench.Base.{ℕ, ◌≡◌, Bool, List, Text, length}

-- `OutputAction(port, max_len)`.
pub record OutputAction : Type 0 where
  pub port : ℕ
  pub max_len : ℕ

-- The constructor's arguments of `FlowMod`, its match on `in_port`, and its actions.
pub record FlowMod : Type 0 where
  pub xid : ℕ
  pub cookie : ℕ
  pub command : ℕ
  pub idle_timeout : ℕ
  pub hard_timeout : ℕ
  pub priority : ℕ
  pub buffer_id : ℕ
  pub out_port : ℕ
  pub flags : ℕ
  pub in_port : ℕ
  pub actions : List OutputAction

-- The classes of `fluid_msg::of10` that src/ builds, with the arguments it gives them.
pub data OfMessage : Type 0 where
  -- xid
  features_request echo_request echo_reply : ℕ → OfMessage
  flow_mod : FlowMod → OfMessage
  -- xid, flags, port
  stats_request_port : ℕ → ℕ → ℕ → OfMessage
  -- xid, flags, table, port
  stats_request_flow : ℕ → ℕ → ℕ → ℕ → OfMessage
  -- xid, buffer, port, payload, actions
  packet_out : ℕ → ℕ → ℕ → Text → List OutputAction → OfMessage
  -- xid, datapath, buffers, tables, capabilities, actions
  features_reply : ℕ → ℕ → ℕ → ℕ → ℕ → ℕ → OfMessage

pub record Fluid : Type 0 where
  -- `pack()`, and `length()` after it.
  pub pack : OfMessage → Text
  pub packed_length : OfMessage → ℕ
  pub length-pack : (m : OfMessage) → length (pack m) ≡ packed_length m
  -- `unpack(data)`, then `xid()` or `stats_type()`.
  pub xid_of : Text → ℕ
  pub stats_type_of : Text → ℕ
  -- `of10::OFPT_…`, the type byte of a message.
  pub ofpt_hello : ℕ
  pub ofpt_error : ℕ
  pub ofpt_echo_request : ℕ
  pub ofpt_echo_reply : ℕ
  pub ofpt_features_request : ℕ
  pub ofpet_hello_failed : ℕ
  pub ofphfc_incompatible : ℕ
  pub ofpfc_add : ℕ
  pub ofpp_none : ℕ
  -- `ECHO_XID` and `HELLO_XID` of libfluid's OFServer.
  pub echo_xid : ℕ
  pub hello_xid : ℕ

-- `OFServerSettings`.
pub record Settings : Type 0 where
  -- A bit for each OpenFlow version.
  pub supported_versions : ℕ
  pub handshake : Bool
  pub liveness_check : Bool
  pub dispatch_all_messages : Bool
  -- In seconds.
  pub echo_interval : ℕ
