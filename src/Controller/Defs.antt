-- ===== src/Controller/Defs.antt =====
-- The members of `HVBenchController` (src/HVBenchController.h and .cpp) and its callbacks.
use hvbench.Base.{
  ℕ, Bool, true, false, List, [], ◌∷◌, ◌++◌, Option, none, some, Text, if◌then◌else◌,
}
use hvbench.Base.Int.{to_i32, to_u32, negsuc}
use hvbench.Base.Result.{Result, ok, null_pointer, or_fault, ◌>>=◌}
use hvbench.Base.Dict.{Dict, insert}
use hvbench.External.Boost.{Boost}
use hvbench.External.Queue.{ConcurrentQueue}
use hvbench.External.Accumulators.{Accumulators}
use hvbench.External.Random.{Random}
use hvbench.External.Fluid.{Fluid, OfMessage}
use hvbench.Msg.{
  Ofpt, ofpt_key, of_value, req_types, features_reply, echo_request, echo_reply, stats_reply,
}
use hvbench.Msg.Messages.{Time, forward_to}
use hvbench.Conn.{Conn, wrap, send_raw}
use hvbench.Stats.Latency.{Sent, LatencyStats, received}
use hvbench.Stats.Latency

-- The libraries that a controller calls.
pub record Externals : Type 1 where
  pub boost : Boost
  pub queue : ConcurrentQueue Sent
  pub acc : Accumulators
  pub fluid : Fluid
  pub random : Random
  pub write_json : List (Text × Text) → Text

pub record Controller (x : Externals) : Type 0 where
  pub switch_up : Bool
  pub running : Bool
  pub conn : Option Conn
  pub counters : Dict Ofpt ℕ
  pub latency_stats : LatencyStats x.queue x.acc
  pub stats_late_sends : x.acc.Acc
  pub start : Time
  pub last_bytes_cnt : ℕ

-- `OFConnection::Event`.
pub data ConnEvent : Type 0 where
  event_started event_established event_failed_negotiation event_closed event_dead : ConnEvent

zero_counters : List Ofpt → Dict Ofpt ℕ → Dict Ofpt ℕ
zero_counters [] m = m
zero_counters (e ∷ es) m = zero_counters es (insert e 0 m)

module _ (x : Externals) where
  -- The constructor, at the time `now`.
  unfoldable pub create : Time → Controller x
  unfolding zero_counters insert Latency.create
  create now = record {
    switch_up = false;
    running = true;
    conn = none;
    counters = zero_counters req_types [];
    latency_stats = Latency.create x.queue x.acc;
    stats_late_sends = x.acc.fresh;
    start = now;
    last_bytes_cnt = 0;
  }

  unfoldable pub stop : Controller x → Controller x
  stop c = record c { running = false }

  -- `connection_callback` for the connection with the given id.
  unfoldable pub connection_callback : ℕ → ConnEvent → Controller x → Controller x
  unfolding wrap
  connection_callback id event_established c =
      if c.switch_up then c else record c { switch_up = true; conn = some (wrap id 0) }
  connection_callback id _ c = c

  -- A reply with the xid, received at `now`.
  unfoldable pub note_reply : ℕ → ℕ → Time → Controller x → Result (Controller x × List Text)
  note_reply xid type now c = do
    s ← received x.queue x.acc c.latency_stats (to_i32 xid) type now
    ok (record c { latency_stats = s }, [])

  -- The `switch` of `message_callback`, on the enumerator with the value `type`.
  unfoldable pub on_message :
      Option Ofpt → ℕ → Text → Time → Bool → Controller x → Result (Controller x × List Text)
  on_message (some features_reply) type msg now is_alive c =
      note_reply (x.fluid.xid_of msg) type now c
  on_message (some echo_request) type msg now is_alive c =
      ok (c, if is_alive then x.fluid.pack (OfMessage.echo_reply 0) ∷ [] else [])
  on_message (some echo_reply) type msg now is_alive c = note_reply (x.fluid.xid_of msg) type now c
  on_message (some stats_reply) type msg now is_alive c =
      note_reply (x.fluid.xid_of msg) (x.fluid.stats_type_of msg) now c
  on_message _ type msg now is_alive c = ok (c, [])

  -- `message_callback(ofconn, type, data, len)` at the time `now`, on a connection that is alive or
  -- not: the controller after it, and what goes out.
  unfoldable pub message_callback :
      ℕ → Text → Time → Bool → Controller x → Result (Controller x × List Text)
  message_callback type msg now is_alive c = on_message (of_value type) type msg now is_alive c

  -- One of the two rules of `setupSwitch`: from a port to the other.
  setup_rule : ℕ → ℕ → ℕ → OfMessage
  setup_rule xid in_port out = OfMessage.flow_mod (record {
    xid = xid;
    cookie = 123;
    command = x.fluid.ofpfc_add;
    idle_timeout = 3600;
    hard_timeout = 3600;
    priority = 100;
    buffer_id = to_u32 (negsuc 0);
    out_port = x.fluid.ofpp_none;
    flags = 0;
    in_port = in_port;
    actions = forward_to out ∷ [];
  })

  -- `setupSwitch()`: what goes out.
  unfoldable pub setup_switch : Bool → Controller x → Result (List Text)
  unfolding setup_rule send_raw
  setup_switch is_alive c = do
    conn ← or_fault c.conn null_pointer
    ok (
        send_raw is_alive (x.fluid.pack (setup_rule 1 1 2))
        ++ send_raw is_alive (x.fluid.pack (setup_rule 2 2 1)))
