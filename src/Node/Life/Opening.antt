-- ===== src/Node/Life/Opening.antt =====
-- What goes out first on a connection.
use mathlib.Core.Path.{subst}
use hvbench.Base.{
  ap, ◌∙◌, sym, ℕ, ◌≡◌, refl, ◌⊎◌, inl, inr, true, List, [], ◌∷◌, ◌++◌, none, arith, Text,
}
use hvbench.Base.Result.{Result, ok, >>=-eq-ok}
use hvbench.External.Fluid.{Fluid, Settings}
use hvbench.Node.Switch.{OfConnection, sends}
use hvbench.Node.Life.{
  BaseEvent, event_up, event_down, event_closed, Stage, fresh, up, down, Link, HvBenchNode, Out, on,
  Event, connects, changes, receives, checks, stops_conn, stops_client, stop_conn,
  base_connection_callback, step, run, hello_msg,
}
use hvbench.Node.Life.Legal.{MayCome, Stands, Allows, IsSound, After, IsLegal}
use hvbench.Node.Life.Links.{found_sound, Holds, live_at, not_deleted}
use hvbench.Node.Life.Sound.{step-GoesWell, run-GoesWell}

-- The bytes that a history sends.
abbrev pub sent_bytes : List Out → List Text
sent_bytes [] = []
sent_bytes (on a (sends bytes) ∷ out) = bytes ∷ sent_bytes out
sent_bytes (_ ∷ out) = sent_bytes out

sent_bytes-append : (xs ys : List Out) → sent_bytes (xs ++ ys) ≡ sent_bytes xs ++ sent_bytes ys
sent_bytes-append [] ys = refl
sent_bytes-append (on a (sends bytes) ∷ xs) ys = ap (◌∷◌ bytes) (sent_bytes-append xs ys)
sent_bytes-append (_ ∷ xs) ys = sent_bytes-append xs ys

out_of :
    {p : HvBenchNode × List Out} {n : HvBenchNode} {out : List Out}
    → ◌≡◌ {A = Result (HvBenchNode × List Out)} (ok p) (ok (n, out))
    → p.1 ≡ out
out_of h = ground arith

not_up : (l : Link) (n : HvBenchNode) → n.conn ≡ none → Holds l n → l.stage ≡ up → ⊥
not_up l n e (th, st) is_up = let (_, linked, _, _) = subst (λ s. Stands s l n.conn) is_up st in cc

module _ (f : Fluid) (ofsc : Settings) (datapath_id : ℕ) (made : OfConnection) where
  change_first :
      (a : ℕ) (e : BaseEvent) (s : Stage) (l : Link) (n : HvBenchNode)
      → ofsc.handshake ≡ true
      → n.conn ≡ none
      → MayCome e s
      → Stands s l n.conn
      → sent_bytes (base_connection_callback f ofsc datapath_id made a e l n).1
        ≡ hello_msg f ofsc datapath_id ∷ []
  unfolding base_connection_callback
  change_first a event_up fresh l n shakes q h st = rw shakes
  change_first a event_down up l n shakes q h st = absurd (cc)
  change_first a event_closed up l n shakes q h st = absurd (cc)
  change_first a event_closed down l n shakes q h st = absurd (cc)
  change_first a _ _ l n shakes q h st = absurd h

  -- Before a connection is up, a step sends nothing, or brings it up and says hello.
  step_first :
      (e : Event) (n : HvBenchNode) {n' : HvBenchNode} {out : List Out}
      → ofsc.handshake ≡ true
      → IsSound n
      → n.conn ≡ none
      → Allows e n
      → step f ofsc datapath_id made e n ≡ ok (n', out)
      → ((sent_bytes out ≡ []) × (n'.conn ≡ none))
        ⊎ (sent_bytes out ≡ hello_msg f ofsc datapath_id ∷ [])
  unfolding step stop_conn
  step_first (connects done) n shakes s q a h = inl (ground arith)
  step_first (changes a e) n shakes s q (_, l, there, may) h =
      let (_, _, holds) = found_sound a n s there in
      let kept = not_deleted e l.stage l n.conn may holds.1 in
      let same = out_of (rw (live_at a l n there kept) at h) in
      inr (sym (ap sent_bytes same) ∙ change_first a e l.stage l n shakes q may holds.1)
  step_first (receives a msg) n shakes s q ((_, l, there, is_up), _) h =
      let (_, _, holds) = found_sound a n s there in absurd (not_up l n q holds is_up)
  step_first (checks a) n shakes s q (_, l, there, is_up) h =
      let (_, _, holds) = found_sound a n s there in absurd (not_up l n q holds is_up)
  step_first stops_conn n shakes s q a h =
      let (o, closed_, last) = >>=-eq-ok (stop_conn n) (λ o. ok (n, o)) h in
      let silent : o ≡ [] = let quiet = rw (q, stop_conn) at closed_ in ground arith in
      inl (ground (arith, silent))
  step_first stops_client n shakes s q a h = inl (ground arith)

  abbrev pub SaysHello : List Out → Type 0
  SaysHello out =
      (sent_bytes out ≡ [])
      ⊎ ((rest : List Text) × (sent_bytes out ≡ hello_msg f ofsc datapath_id ∷ rest))

  abbrev pub SaysHelloFirst : Result (HvBenchNode × List Out) → Type 0
  SaysHelloFirst r = (n : HvBenchNode) × (out : List Out) × (r ≡ ok (n, out)) × SaysHello out

  -- With the handshake on, whatever libfluid and the threads do, the first that a switch sends is its
  -- hello, before any answer to a message and any echo request.
  pub run-SaysHelloFirst :
      (es : List Event) (n : HvBenchNode)
      → ofsc.handshake ≡ true
      → IsSound n
      → n.conn ≡ none
      → IsLegal f ofsc datapath_id made es n
      → SaysHelloFirst (run f ofsc datapath_id made es n)
  unfolding run
  run-SaysHelloFirst [] n shakes s q a = (n, [], refl, inl refl)
  run-SaysHelloFirst (e ∷ es) n shakes s q (may, later) =
      let (n₁, out₁, first, s₁, _) = step-GoesWell f ofsc datapath_id made e n s may in
      let legal = subst (After (IsLegal f ofsc datapath_id made es)) first later in
      elim (step_first e n shakes s q may first) [
        | inl (silent, q₁) ↦
            let (n₂, out₂, rest, says) = run-SaysHelloFirst es n₁ shakes s₁ q₁ legal in
            (n₂, out₁ ++ out₂, rw (first, rest) refl, rw (sent_bytes-append, silent) says)
        | inr hello ↦
            let (n₂, out₂, rest, _, _) = run-GoesWell f ofsc datapath_id made es n₁ s₁ legal in
            (
              n₂,
              out₁ ++ out₂,
              rw (first, rest) refl,
              inr (sent_bytes out₂, rw (sent_bytes-append, hello) refl),
            )
      ]
