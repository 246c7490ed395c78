-- ===== src/Node/Life/Sound.antt =====
-- No event of a history that libfluid may give fails.
use Prim.Native.Nat.{bit_and}
use mathlib.Core.Path.{subst}
use hvbench.Base.{
  sym, ◌||◌, ltb, not, ◌-◌, ◌^◌, ℕ, ◌≤◌, ◌<◌, ◌≡◌, refl, inl, inr, Bool, true, false, Bool-cases,
  ◌&&◌, ◌==◌, List, [], ◌∷◌, ◌++◌, arith, Text, All-append, if◌then◌else◌,
}
use hvbench.Base.Result.{Result, ok}
use hvbench.External.Fluid.{Fluid, Settings}
use hvbench.Node.Switch.{
  OfConnection, Effect, is_incompatible, on_hello, on_echo_request, on_echo_reply,
  on_features_request, base_message_callback, send_echo,
}
use hvbench.Node.Client.{ended}
use hvbench.Node.Life.{
  BaseEvent, event_up, event_down, event_closed, Stage, fresh, up, down, Link, HvBenchNode, Event,
  connects, changes, receives, checks, stops_conn, stops_client, base_connection_callback, step,
  run,
}
use hvbench.Node.Life.Legal.{
  MayCome, IsWhole, Allows, Stands, IsSound, IsAbout, GoesWell, After, IsLegal,
}
use hvbench.Node.Life.Links.{
  found_sound, live_lem, not_deleted, Holds-IsUp, managed_GoesWell, stop_conn-Closes, connect-Sits,
}

-- A callback for a message ends without a fault.
abbrev pub Ends : Result (OfConnection × List Effect) → Type 0
Ends r = (d : OfConnection) × (fx : List Effect) × (r ≡ ok (d, fx))

if-Ends :
    (b : Bool) {r s : Result (OfConnection × List Effect)}
    → Ends r
    → Ends s
    → Ends (if b then r else s)
if-Ends true h g = h
if-Ends false h g = g

module _ (f : Fluid) (ofsc : Settings) (datapath_id : ℕ) where
  is_incompatible_total :
      (supported version : ℕ)
      → 0 < version
      → version ≤ 32
      → (b : Bool) × (is_incompatible supported version ≡ ok b)
  unfolding is_incompatible
  is_incompatible_total supported version low high =
      let e : (version == 0 || ltb 32 version) ≡ false = ground arith in
      (
        not (bit_and (if supported == 0 then 1 else 0) (2 ^ (version - 1)) == 0),
        rw (e, is_incompatible) refl,
      )

  -- A whole message is handled without a fault.
  pub message_total :
      (msg : Text) (c : OfConnection)
      → IsWhole msg
      → Ends (base_message_callback f ofsc datapath_id msg c)
  unfolding base_message_callback on_echo_request on_hello on_echo_reply on_features_request
  message_total msg c (v, t, b₂, b₃, x₀, x₁, x₂, x₃, rest, e, low, high) =
      let (bad, known) = is_incompatible_total ofsc.supported_versions v low high in
      subst (λ m. Ends (base_message_callback f ofsc datapath_id m c)) (sym e)
        (if-Ends (ofsc.liveness_check && t == f.ofpt_echo_request) (_, _, refl)
          (if-Ends (ofsc.handshake && t == f.ofpt_hello)
            (rw (known, on_hello) (if-Ends bad (_, _, refl) (_, _, refl)))
            (if-Ends (ofsc.liveness_check && t == f.ofpt_echo_reply) (_, _, refl)
              (if-Ends (ofsc.handshake && t == f.ofpt_features_request) (_, _, refl)
                (_, _, refl)))))

  module _ (made : OfConnection) where
    change_GoesWell :
        (e : BaseEvent) (s : Stage) (l : Link) (n : HvBenchNode)
        → l.stage ≡ s
        → n.links ≡ l ∷ []
        → MayCome e s
        → (n.base.conn_thread ≡ ended) × Stands s l n.conn
        → GoesWell (ok (base_connection_callback f ofsc datapath_id made 0 e l n))
    unfolding base_connection_callback
    change_GoesWell event_up fresh l n e₁ e₂ h (th, st) = elim (Bool-cases ofsc.handshake) [
      | inl shakes ↦
          rw (shakes, e₂) (_, _, refl, (th, (st.0, refl, made, refl)), (refl, (refl, tt)))
      | inr quiet ↦ rw (quiet, e₂) (_, _, refl, (th, (st.0, refl, made, refl)), (refl, tt))
    ]
    change_GoesWell event_down up l n e₁ e₂ h (th, st) = rw e₂ (_, _, refl, (th, st), (st.1, tt))
    change_GoesWell event_closed up l n e₁ e₂ h (th, st) =
        rw e₂ (_, _, refl, (th, (refl, st.1)), (refl, tt))
    change_GoesWell event_closed down l n e₁ e₂ h (th, st) =
        rw e₂ (_, _, refl, (th, (refl, st.1)), (refl, tt))
    change_GoesWell _ _ l n e₁ e₂ h st = absurd h

    pub step-GoesWell :
        (e : Event) (n : HvBenchNode)
        → IsSound n
        → Allows e n
        → GoesWell (step f ofsc datapath_id made e n)
    unfolding step
    step-GoesWell (connects done) n s a =
        (_, _, refl, connect-Sits n.links n.base.conn_thread done n.base n.conn refl s, tt)
    step-GoesWell (changes a e) n s (_, l, there, may) =
        let (zero_, e₂, holds) = found_sound a n s there in
        subst (λ b. GoesWell (step f ofsc datapath_id made (changes b e) n)) (sym zero_)
          (rw (live_lem l n e₂ (not_deleted e l.stage l n.conn may holds.1))
            (change_GoesWell e l.stage l n refl e₂ may holds))
    step-GoesWell (receives a msg) n s ((_, l, there, is_up), whole) =
        let (zero_, e₂, holds) = found_sound a n s there in
        let (c, (kept, managed)) = Holds-IsUp l n holds is_up in
        let (d, fx, handled) = message_total msg c whole in
        subst (λ b. GoesWell (step f ofsc datapath_id made (receives b msg) n)) (sym zero_)
          (rw (live_lem l n e₂ kept, managed, handled) (managed_GoesWell l n d fx e₂ holds is_up))
    step-GoesWell (checks a) n s (_, l, there, is_up) =
        let (zero_, e₂, holds) = found_sound a n s there in
        let (c, (kept, managed)) = Holds-IsUp l n holds is_up in
        let (d, fx) = send_echo f ofsc datapath_id c in
        subst (λ b. GoesWell (step f ofsc datapath_id made (checks b) n)) (sym zero_)
          (rw (live_lem l n e₂ kept, managed) (managed_GoesWell l n d fx e₂ holds is_up))
    step-GoesWell stops_conn n s a =
        let (out, closed_, about) = stop_conn-Closes n s a in (n, out, rw closed_ refl, s, about)
    step-GoesWell stops_client n s a = (_, _, refl, s, tt)

    -- From a sound state, such as that of a switch that was just started, no event of a history fails
    -- in which libfluid keeps the order of its events, every message is of a version from 1 to 32, and
    -- `stop_conn` is not called after the connection has been closed: no null pointer and no deleted
    -- object is used. The state stays sound, so there is one connection at most, and every effect and
    -- every notification is about that one.
    pub run-GoesWell :
        (es : List Event) (n : HvBenchNode)
        → IsSound n
        → IsLegal f ofsc datapath_id made es n
        → GoesWell (run f ofsc datapath_id made es n)
    unfolding run
    run-GoesWell [] n s a = (n, [], refl, s, tt)
    run-GoesWell (e ∷ es) n s (may, later) =
        let (n₁, out₁, first, s₁, about₁) = step-GoesWell e n s may in
        let (n₂, out₂, rest, s₂, about₂) =
          run-GoesWell es n₁ s₁ (subst (After (IsLegal f ofsc datapath_id made es)) first later) in
        (n₂, out₁ ++ out₂, rw (first, rest), s₂, All-append IsAbout out₁ out₂ about₁ about₂)
