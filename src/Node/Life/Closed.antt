-- ===== src/Node/Life/Closed.antt =====
-- What comes after the end of a connection.
use mathlib.Core.Path.{subst}
use mathlib.Core.Option.{some-injective}
use hvbench.Base.{
  zero, suc, ap, ◌∙◌, sym, ℕ, ◌≡◌, refl, true, List, [], ◌∷◌, Option, none, some, get_elem?,
}
use hvbench.Base.Result.{Result, ok, fault, dangling}
use hvbench.External.Fluid.{Fluid, Settings}
use hvbench.Node.Switch.{OfConnection, deletes}
use hvbench.Node.Client.{ended, try_connect}
use hvbench.Node.Client
use hvbench.Node.Life.{
  BaseEvent, event_up, event_down, event_closed, Stage, fresh, up, down, closed, Link, HvBenchNode,
  Out, on, Event, connects, changes, receives, checks, stops_conn, stops_client, live, stop_conn,
  base_connection_callback, step, run,
}
use hvbench.Node.Life.Legal.{
  MayCome, IsOpen, Stands, StandsAt, AreOpen, Allows, IsSound, After, IsLegal,
}
use hvbench.Node.Life.Links.{found_sound, live_lem, not_deleted}

-- The only connection is closed and deleted, and the member `conn` still points at what managed it.
pub record IsOver (n : HvBenchNode) : Type 0 where
  pub link : Link
  pub only : n.links ≡ link ∷ []
  pub is_closed : link.stage ≡ closed
  pub is_deleted : link.is_deleted ≡ true
  pub linked : n.conn ≡ some 0
  pub thread : n.base.conn_thread ≡ ended

-- No event is left for a closed connection.
nothing_comes :
    (n : HvBenchNode) (a : ℕ) (P : Stage → Type 0) → IsOver n → (P closed → ⊥) → StandsAt a P n → ⊥
nothing_comes n zero P o never (_, l, there, p) =
    let same : o.link ≡ l =
      some-injective o.link l (ap (λ ls. get_elem? ls 0) (sym o.only) ∙ there) in
    never (subst P (sym (ap (λ k. k.stage) same) ∙ o.is_closed) p)
nothing_comes n (suc a) P o never (_, l, there, p) =
    let lost : none ≡ some l = ap (λ ls. get_elem? ls (suc a)) (sym o.only) ∙ there in absurd (cc)

none_left : (e : BaseEvent) → MayCome e closed → ⊥
none_left event_up h = h
none_left event_down h = h
none_left event_closed h = h

none_open : (n : HvBenchNode) → IsOver n → AreOpen n.links → ⊥
none_open n o op = let (open_, _) = subst AreOpen o.only op in subst IsOpen o.is_closed open_

-- `stop_conn` then uses the connection that is deleted.
over-stop_conn : (n : HvBenchNode) → IsOver n → stop_conn n ≡ fault dangling
unfolding stop_conn live
over-stop_conn n o = rw (o.linked, stop_conn, o.only, o.is_deleted) refl

linked_before :
    (s : Stage) (l : Link) (conn : Option ℕ)
    → MayCome event_closed s
    → Stands s l conn
    → conn ≡ some 0
linked_before up l conn may st = st.1
linked_before down l conn may st = st.1
linked_before fresh l conn may st = absurd may
linked_before closed l conn may st = absurd may

-- Nothing goes out, and the connection stays closed.
abbrev StaysOver : Result (HvBenchNode × List Out) → Type 0
StaysOver r = (n : HvBenchNode) × (r ≡ ok (n, [])) × IsOver n

module _ (f : Fluid) (ofsc : Settings) (datapath_id : ℕ) (made : OfConnection) where
  step-StaysOver :
      (e : Event) (n : HvBenchNode)
      → IsOver n
      → Allows e n
      → StaysOver (step f ofsc datapath_id made e n)
  unfolding step try_connect Client.stop
  step-StaysOver (connects done) n o a = (n, rw o.thread, o)
  step-StaysOver (changes a e) n o may = absurd (nothing_comes n a (MayCome e) o (none_left e) may)
  step-StaysOver (receives a msg) n o (may, _) =
      absurd (nothing_comes n a (λ s. s ≡ up) o (λ h. cc) may)
  step-StaysOver (checks a) n o may = absurd (nothing_comes n a (λ s. s ≡ up) o (λ h. cc) may)
  step-StaysOver stops_conn n o a = absurd (none_open n o a)
  step-StaysOver stops_client n o a = (
    _,
    refl,
    record {
      link = o.link;
      only = o.only;
      is_closed = o.is_closed;
      is_deleted = o.is_deleted;
      linked = o.linked;
      thread = o.thread;
    },
  )

  run-over :
      (es : List Event) (n : HvBenchNode)
      → IsOver n
      → IsLegal f ofsc datapath_id made es n
      → StaysOver (run f ofsc datapath_id made es n)
  unfolding run
  run-over [] n o a = (n, refl, o)
  run-over (e ∷ es) n o (may, later) =
      let (n₁, first, o₁) = step-StaysOver e n o may in
      let (n₂, rest, o₂) =
        run-over es n₁ o₁ (subst (After (IsLegal f ofsc datapath_id made es)) first later) in
      (n₂, rw (first, rest) refl, o₂)

  close-IsOver :
      (n : HvBenchNode)
      → IsSound n
      → StandsAt 0 (MayCome event_closed) n
      → (n' : HvBenchNode) × (step f ofsc datapath_id made (changes 0 event_closed) n
          ≡ ok (n', on 0 deletes ∷ []))
        × IsOver n'
  unfolding step base_connection_callback
  close-IsOver n s (_, l, there, may) =
      let (_, e, (th, st)) = found_sound 0 n s there in
      let gone = record l { stage = closed; is_deleted = true } in
      (
        record n { links = gone ∷ [] },
        rw (live_lem l n e (not_deleted event_closed l.stage l n.conn may st), e) refl,
        record {
          link = gone;
          only = refl;
          is_closed = refl;
          is_deleted = refl;
          linked = linked_before l.stage l n.conn may st;
          thread = th;
        },
      )

  -- Once the connection of a sound switch is closed, it is deleted, and over every history of events
  -- that may follow, `stop_conn` not among them, nothing else goes out and no other connection is
  -- made; a call of `stop_conn` then uses the connection that is deleted.
  pub run-StaysOver :
      (es : List Event) (n : HvBenchNode)
      → IsSound n
      → IsLegal f ofsc datapath_id made (changes 0 event_closed ∷ es) n
      → (n' : HvBenchNode) × (run f ofsc datapath_id made (changes 0 event_closed ∷ es) n
          ≡ ok (n', on 0 deletes ∷ []))
        × IsOver n'
        × (stop_conn n' ≡ fault dangling)
  unfolding run
  run-StaysOver es n s (may, later) =
      let (n₁, first, o₁) = close-IsOver n s may in
      let (n₂, rest, o₂) =
        run-over es n₁ o₁ (subst (After (IsLegal f ofsc datapath_id made es)) first later) in
      (n₂, rw (first, rest) refl, o₂, over-stop_conn n₂ o₂)
