-- ===== src/Node/Switch.antt =====
-- `HVBenchNode` (src/HVBenchNode.h and .cpp): the callbacks of a simulated switch.
pub mod Laws
use Prim.Native.Nat.{bit_and}
use hvbench.Base.{
  ℕ, ◌+◌, ◌-◌, ◌/◌, ◌%◌, ◌^◌, ◌*◌, ltb, ◌==◌, Bool, true, false, not, ◌&&◌, ◌||◌, List, [], ◌∷◌,
  ◌++◌, Text, get_elem?, drop, some, none, Option, if◌then◌else◌,
}
use hvbench.Base.Result.{
  Result, ok, fault, past_the_end, undefined_conversion, require, or_fault, ◌>>=◌, ◌>>◌,
}
use hvbench.External.Fluid.{Fluid, Settings, OfMessage}
use hvbench.Controller.Defs.{
  ConnEvent, event_started, event_established, event_failed_negotiation, event_closed, event_dead,
}

-- `OFConnection::State`, as far as it is set here.
pub data ConnState : Type 0 where
  state_handshake state_running state_failed : ConnState

-- What the code reads and writes of an `OFConnection`.
pub record OfConnection : Type 0 where
  pub version : ℕ
  pub state : ConnState
  pub is_alive : Bool

pub data Effect : Type 0 where
  sends : Text → Effect
  closes : Effect
  -- a call of `connection_callback`
  calls : ConnEvent → Effect
  -- a call of `message_callback`
  dispatches : ℕ → Text → Effect
  -- `add_timed_callback(send_echo, ms, cc)`
  schedules_echo : ℕ → Effect
  frees : Effect
  -- `delete` of libfluid's connection
  deletes : Effect

-- The four bytes of the xid, copied as they stand.
xid_bytes : Text → Result Text
xid_bytes msg = do
  a ← or_fault (get_elem? msg 4) past_the_end
  b ← or_fault (get_elem? msg 5) past_the_end
  c ← or_fault (get_elem? msg 6) past_the_end
  d ← or_fault (get_elem? msg 7) past_the_end
  ok (a ∷ b ∷ c ∷ d ∷ [])

-- The number that bytes in network order stand for, behind those that were read as `n`.
read_be : ℕ → Text → ℕ
read_be n [] = n
read_be n (b ∷ bs) = read_be (n * 256 + b) bs

-- `ntohl` of four bytes in memory.
unfoldable pub ntohl : Text → ℕ
unfolding read_be
ntohl bytes = read_be 0 bytes

-- `htons(n)` in memory.
abbrev pub word16 : ℕ → Text
word16 n = n / 256 ∷ n % 256 ∷ []

-- `not supported_versions & (1 << (version - 1))` in the test of a hello: `not` binds tighter.
unfoldable pub is_incompatible : ℕ → ℕ → Result Bool
is_incompatible supported version =
    if version == 0 || ltb 32 version
    then fault undefined_conversion
    else ok (not (bit_and (if supported == 0 then 1 else 0) (2 ^ (version - 1)) == 0))

module _ (f : Fluid) (ofsc : Settings) (datapath_id : ℕ) where
  -- The labels `dispatch:` and `done:`.
  dispatch_if : Bool → ℕ → Text → List Effect
  dispatch_if b type msg = if b then dispatches type msg ∷ frees ∷ [] else frees ∷ []

  -- An echo request, answered with its own xid.
  unfoldable pub on_echo_request : Text → OfConnection → Result (OfConnection × List Effect)
  unfolding xid_bytes dispatch_if
  on_echo_request msg c = do
    version ← or_fault (get_elem? msg 0) past_the_end
    xid ← xid_bytes msg
    ok (
      c,
      sends (version ∷ f.ofpt_echo_reply ∷ word16 8 ++ xid)
          ∷ dispatch_if ofsc.dispatch_all_messages f.ofpt_echo_request msg,
    )

  -- A hello.
  unfoldable pub on_hello : Text → OfConnection → Result (OfConnection × List Effect)
  unfolding xid_bytes dispatch_if is_incompatible
  on_hello msg c = do
    version ← or_fault (get_elem? msg 0) past_the_end
    bad ← is_incompatible ofsc.supported_versions version
    let rest = dispatch_if ofsc.dispatch_all_messages f.ofpt_hello msg
    if bad
        then (do
          xid ← xid_bytes msg
          let error =
              word16 12 ++ xid ++ word16 f.ofpet_hello_failed ++ word16 f.ofphfc_incompatible
          ok (
            record c { state = state_failed },
            sends (version ∷ f.ofpt_error ∷ error) ∷ closes ∷ calls event_failed_negotiation ∷ rest,
          ))
        else ok (c, rest)

  -- An echo reply; `ntohl` of the four bytes of the xid is compared.
  unfoldable pub on_echo_reply : Text → OfConnection → Result (OfConnection × List Effect)
  unfolding xid_bytes ntohl dispatch_if
  on_echo_reply msg c = do
    xid ← xid_bytes msg
    ok (
      if ntohl xid == f.echo_xid then record c { is_alive = true } else c,
      dispatch_if ofsc.dispatch_all_messages f.ofpt_echo_reply msg,
    )

  -- A features request: the connection is established.
  unfoldable pub on_features_request : Text → OfConnection → Result (OfConnection × List Effect)
  unfolding dispatch_if
  on_features_request msg c = do
    version ← or_fault (get_elem? msg 0) past_the_end
    let timer = if ofsc.liveness_check then schedules_echo (ofsc.echo_interval * 1000) ∷ [] else []
    ok (
      record c { version = version; state = state_running },
      sends (f.pack (OfMessage.features_reply (f.xid_of msg) datapath_id 1 1 0 0)) ∷ timer
          ++ calls event_established ∷ dispatch_if true f.ofpt_features_request msg,
    )

  -- The tests on the type, in order.
  unfoldable pub on_type : ℕ → Text → OfConnection → Result (OfConnection × List Effect)
  unfolding dispatch_if
  on_type type msg c =
      if ofsc.liveness_check && type == f.ofpt_echo_request
      then on_echo_request msg c
      else if ofsc.handshake && type == f.ofpt_hello
      then on_hello msg c
      else if ofsc.liveness_check && type == f.ofpt_echo_reply
      then on_echo_reply msg c
      else if ofsc.handshake && type == f.ofpt_features_request
      then on_features_request msg c
      else ok (c, dispatch_if true type msg)

  -- `base_message_callback(c, data, len)`.
  unfoldable pub base_message_callback : Text → OfConnection → Result (OfConnection × List Effect)
  unfolding on_type
  base_message_callback msg c = do
    type ← or_fault (get_elem? msg 1) past_the_end
    on_type type msg c

  -- `send_echo(arg)`: a peer that has not answered the last echo request is dead.
  unfoldable pub send_echo : OfConnection → OfConnection × List Effect
  send_echo c =
      if c.is_alive
      then (
        record c { is_alive = false },
        sends (
              c.version % 256 ∷ f.ofpt_echo_request ∷ word16 8
              ++ word16 (f.echo_xid / 65536)
              ++ word16 (f.echo_xid % 65536))
            ∷ [],
      )
      else (c, closes ∷ calls event_dead ∷ [])
