-- ===== src/Node/Switch/Laws.antt =====
-- The handshake and the liveness check of the simulated switch.
use Prim.Native.Nat.{bit_and, bit_and-bitwise}
use hvbench.Base.{
  ℕ, ◌-◌, ◌^◌, ◌≤◌, ◌<◌, ◌≡◌, ◌≢◌, true, [], ◌∷◌, some, arith, Text, get_elem?, if◌then◌else◌,
}
use hvbench.Base.Result.{ok}
use hvbench.External.Fluid.{Fluid, Settings}
use hvbench.Node.Switch.{
  OfConnection, dispatches, frees, is_incompatible, on_hello, base_message_callback,
}

zero-bit_and : (n : ℕ) → bit_and 0 n ≡ 0
zero-bit_and n = bit_and-bitwise 0 n

module _ (f : Fluid) (ofsc : Settings) (datapath_id : ℕ) (c : OfConnection) where
  -- With the handshake on and some version supported, a hello of any version from 1 to 32 is
  -- accepted, supported or not: the negotiation does not fail and no error is sent.
  pub hello_accepted :
      (version : ℕ) (msg : Text)
      → get_elem? msg 0 ≡ some version
      → get_elem? msg 1 ≡ some f.ofpt_hello
      → 0 < version
      → version ≤ 32
      → ofsc.handshake ≡ true
      → ofsc.supported_versions ≢ 0
      → f.ofpt_hello ≢ f.ofpt_echo_request
      → base_message_callback f ofsc datapath_id msg c
        ≡ ok (
          c,
          if ofsc.dispatch_all_messages
              then dispatches f.ofpt_hello msg ∷ frees ∷ []
              else frees ∷ [],
        )
  unfolding base_message_callback on_hello is_incompatible
  hello_accepted version msg v t low high shakes some_version other =
      ground (arith, zero-bit_and (2 ^ (version - 1)))
