-- ===== src/Node/Life/Links.antt =====
-- The one connection of a sound state.
use mathlib.Core.Path.{subst}
use mathlib.Core.Option.{some-injective}
use hvbench.Base.{
  zero, suc, ap, ◌∙◌, sym, ℕ, ◌≡◌, refl, Bool, false, List, [], ◌∷◌, ◌++◌, map, Option, some,
  get_elem?, All, if◌then◌else◌,
}
use hvbench.Base.Result.{ok}
use hvbench.Node.Switch.{OfConnection, Effect, closes}
use hvbench.Node.Client.{ConnThread, connected, ended}
use hvbench.Node.Client.{BaseClient, try_connect}
use hvbench.Node.Life.{
  put, live, new_link, BaseEvent, event_up, event_down, event_closed, Stage, fresh, up, down,
  closed, Link, HvBenchNode, Out, on, stop_conn,
}
use hvbench.Node.Life.Legal.{MayCome, IsOpen, AreOpen, Stands, Sits, IsSound, IsAbout, GoesWell}

pub map_on-IsAbout : (fx : List Effect) → All IsAbout (map (on 0) fx)
map_on-IsAbout [] = tt
map_on-IsAbout (e ∷ fx) = (refl, map_on-IsAbout fx)

-- In a sound state an event can only be about the one connection.
abbrev pub Holds : Link → HvBenchNode → Type 0
Holds l n = (n.base.conn_thread ≡ ended) × Stands l.stage l n.conn

found :
    (ls : List Link) (a : ℕ) {l : Link} (n : HvBenchNode)
    → n.links ≡ ls
    → Sits ls n.base.conn_thread n.conn
    → get_elem? ls a ≡ some l
    → (a ≡ 0) × (n.links ≡ l ∷ []) × Holds l n
found [] a n e s there = absurd (cc)
found (k ∷ []) zero {l} n e s there =
    let same : k ≡ l = some-injective k l there in
    (refl, e ∙ ap (λ j. j ∷ []) same, subst (λ j. Holds j n) same s)
found (k ∷ []) (suc a) n e s there = absurd (cc)
found (k ∷ j ∷ ls) a n e s there = absurd s

pub found_sound :
    (a : ℕ) {l : Link} (n : HvBenchNode)
    → IsSound n
    → get_elem? n.links a ≡ some l
    → (a ≡ 0) × (n.links ≡ l ∷ []) × Holds l n
found_sound a n s there = found n.links a n refl s there

pub live_at :
    (a : ℕ) (l : Link) (n : HvBenchNode)
    → get_elem? n.links a ≡ some l
    → l.is_deleted ≡ false
    → live a n ≡ ok l
unfolding live
live_at a l n e k = rw (e, k) refl

pub live_lem :
    (l : Link) (n : HvBenchNode) → n.links ≡ l ∷ [] → l.is_deleted ≡ false → live 0 n ≡ ok l
live_lem l n e k = live_at 0 l n (ap (λ ls. get_elem? ls 0) e) k

-- While an event may come, the connection is there.
pub not_deleted :
    (e : BaseEvent) (s : Stage) (l : Link) (conn : Option ℕ)
    → MayCome e s
    → Stands s l conn
    → l.is_deleted ≡ false
not_deleted event_up fresh l conn h st = st.0
not_deleted event_down up l conn h st = st.0
not_deleted event_closed up l conn h st = st.0
not_deleted event_closed down l conn h st = st.0
not_deleted _ _ l conn h st = absurd h

-- A connection that is up.
abbrev pub IsUp : Link → HvBenchNode → OfConnection → Type 0
IsUp l n c = (l.is_deleted ≡ false) × (l.manager ≡ some c)

pub Holds-IsUp :
    (l : Link) (n : HvBenchNode) → Holds l n → l.stage ≡ up → (c : OfConnection) × IsUp l n c
Holds-IsUp l n (th, st) e =
    let (kept, _, c, managed) = subst (λ s. Stands s l n.conn) e st in (c, (kept, managed))

-- The manager of a connection that is up is changed.
pub managed_GoesWell :
    (l : Link) (n : HvBenchNode) (d : OfConnection) (fx : List Effect)
    → n.links ≡ l ∷ []
    → Holds l n
    → l.stage ≡ up
    → GoesWell (ok (put 0 (record l { manager = some d }) n, map (on 0) fx))
managed_GoesWell l n d fx e₂ (th, st) e =
    let (kept, linked, _, _) = subst (λ s. Stands s l n.conn) e st in
    let held : Stands up (record l { manager = some d }) n.conn = (kept, linked, d, refl) in
    rw e₂ (
      _,
      _,
      refl,
      (th, subst (λ s. Stands s (record l { manager = some d }) n.conn) (sym e) held),
      map_on-IsAbout fx,
    )

-- While no connection is closed, `stop_conn` closes the one of the member `conn`, if it is set.
abbrev pub Closes : HvBenchNode → Type 0
Closes n = (out : List Out) × (stop_conn n ≡ ok out) × All IsAbout out

Stands-Closes :
    (s : Stage) (l : Link) (n : HvBenchNode)
    → n.links ≡ l ∷ []
    → Stands s l n.conn
    → IsOpen s
    → Closes n
unfolding stop_conn
Stands-Closes fresh l n e st op = ([], rw (st.1, stop_conn) refl, tt)
Stands-Closes up l n e st op =
    (on 0 closes ∷ [], rw (st.1, stop_conn, live_lem l n e st.0) refl, (refl, tt))
Stands-Closes down l n e st op =
    (on 0 closes ∷ [], rw (st.1, stop_conn, live_lem l n e st.0) refl, (refl, tt))
Stands-Closes closed l n e st op = absurd op

Sits-Closes :
    (ls : List Link) (n : HvBenchNode)
    → n.links ≡ ls
    → Sits ls n.base.conn_thread n.conn
    → AreOpen ls
    → Closes n
unfolding stop_conn
Sits-Closes [] n e s op = ([], rw (s, stop_conn) refl, tt)
Sits-Closes (l ∷ []) n e (th, st) op = Stands-Closes l.stage l n e st op.0
Sits-Closes (l ∷ k ∷ ls) n e s op = absurd s

pub stop_conn-Closes : (n : HvBenchNode) → IsSound n → AreOpen n.links → Closes n
stop_conn-Closes n s op = Sits-Closes n.links n refl s op

-- A step of the thread that connects.
pub connect-Sits :
    (ls : List Link) (p : ConnThread) (done : Bool) (b : BaseClient) (conn : Option ℕ)
    → b.conn_thread ≡ p
    → Sits ls p conn
    → Sits
        (if (try_connect p done b).1 then ls ++ new_link ∷ [] else ls)
        (try_connect p done b).0.conn_thread
        conn
unfolding try_connect
connect-Sits [] connected done b conn e s = (refl, (refl, s))
connect-Sits [] _ done b conn e s = s
connect-Sits (l ∷ []) ended done b conn e (th, st) = (e, st)
connect-Sits (l ∷ []) _ done b conn e (th, st) = absurd (cc)
connect-Sits (l ∷ k ∷ ls) p done b conn e s = absurd s
