-- ===== src/Node/Life/Legal.antt =====
-- What libfluid promises of its events, and the states that they lead through.
use hvbench.Base.{
  ℕ, ◌≤◌, ◌<◌, ◌≡◌, true, false, List, [], ◌∷◌, Option, none, some, Text, get_elem?, All,
}
use hvbench.Base.Result.{Result, ok, fault}
use hvbench.External.Fluid.{Fluid, Settings}
use hvbench.Node.Switch.{OfConnection}
use hvbench.Node.Client.{ConnThread, ended, running}
use hvbench.Node.Life.{
  BaseEvent, event_up, event_down, event_closed, Stage, fresh, up, down, closed, Link, HvBenchNode,
  Out, on, notifies, Event, changes, receives, checks, stops_conn, step,
}

-- In which order the events of a connection come.
abbrev pub MayCome : BaseEvent → Stage → Type 0
MayCome event_up fresh = Unit
MayCome event_down up = Unit
MayCome event_closed up = Unit
MayCome event_closed down = Unit
MayCome _ _ = ⊥

-- A message with its eight bytes of header, whose sender names a version from 1 to 32. libfluid passes
-- on any version; the test of a hello shifts by one less than it, in an `int`.
abbrev pub IsWhole : Text → Type 0
IsWhole msg =
    (v : ℕ) × (t : ℕ) × (b₂ : ℕ) × (b₃ : ℕ) × (x₀ : ℕ) × (x₁ : ℕ) × (x₂ : ℕ) × (x₃ : ℕ)
    × (rest : Text) × (msg ≡ v ∷ t ∷ b₂ ∷ b₃ ∷ x₀ ∷ x₁ ∷ x₂ ∷ x₃ ∷ rest)
    × (0 < v)
    × (v ≤ 32)

-- A connection at a stage, while the loop runs.
abbrev pub StandsAt : ℕ → (Stage → Type 0) → HvBenchNode → Type 0
StandsAt a P n = (n.base.loop ≡ running) × (l : Link) × (get_elem? n.links a ≡ some l) × P l.stage

-- No connection of the list is closed yet.
abbrev pub IsOpen : Stage → Type 0
IsOpen closed = ⊥
IsOpen _ = Unit

abbrev pub AreOpen : List Link → Type 0
AreOpen [] = Unit
AreOpen (l ∷ ls) = IsOpen l.stage × AreOpen ls

-- What the threads and the loop do: the loop calls back for a connection that is there, in order,
-- and gives whole messages and the timer only between up and down. `stop_conn` is called only while no
-- connection has been closed.
abbrev pub Allows : Event → HvBenchNode → Type 0
Allows (changes a e) n = StandsAt a (MayCome e) n
Allows (receives a msg) n = StandsAt a (λ s. s ≡ up) n × IsWhole msg
Allows (checks a) n = StandsAt a (λ s. s ≡ up) n
Allows stops_conn n = AreOpen n.links
Allows _ n = Unit

-- A connection, at its stage, beside the member `conn`.
abbrev pub Stands : Stage → Link → Option ℕ → Type 0
Stands fresh l conn = (l.is_deleted ≡ false) × (conn ≡ none)
Stands closed l conn = (l.is_deleted ≡ true) × (conn ≡ some 0)
Stands _ l conn =
    (l.is_deleted ≡ false) × (conn ≡ some 0) × (c : OfConnection) × (l.manager ≡ some c)

abbrev pub Sits : List Link → ConnThread → Option ℕ → Type 0
Sits [] thread conn = conn ≡ none
Sits (l ∷ []) thread conn = (thread ≡ ended) × Stands l.stage l conn
Sits (_ ∷ _ ∷ _) thread conn = ⊥

-- At most one connection, made by a thread that has ended; it has a manager from its first event
-- on, which is the one of the member `conn`, and it is deleted exactly if it is closed.
abbrev pub IsSound : HvBenchNode → Type 0
IsSound n = Sits n.links n.base.conn_thread n.conn

-- An effect on the only connection, or a notification of it.
abbrev pub IsAbout : Out → Type 0
IsAbout (on a fx) = a ≡ 0
IsAbout (notifies conn e) = conn ≡ some 0

abbrev pub GoesWell : Result (HvBenchNode × List Out) → Type 0
GoesWell r = (n : HvBenchNode) × (out : List Out) × (r ≡ ok (n, out)) × IsSound n × All IsAbout out

-- What holds of the state after a step, if it ends.
abbrev pub After : (HvBenchNode → Type 0) → Result (HvBenchNode × List Out) → Type 0
After P (fault e) = Unit
After P (ok (n, out)) = P n

module _ (f : Fluid) (ofsc : Settings) (datapath_id : ℕ) (made : OfConnection) where
  -- What libfluid and the threads may do from a state on, step by step.
  abbrev pub IsLegal : List Event → HvBenchNode → Type 0
  IsLegal [] n = Unit
  IsLegal (e ∷ es) n = Allows e n × After (IsLegal es) (step f ofsc datapath_id made e n)
