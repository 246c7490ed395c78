-- ===== src/Controller/Laws/Rising.antt =====
-- Lists of waiting requests whose xids rise.
use mathlib.Core.Path.{subst}
use hvbench.Base.{
  ℕ, suc, ◌^◌, ◌≤◌, ◌<◌, ◌==◌, ◌≡◌, sym, inl, inr, Bool-cases, List, [], ◌∷◌, ◌++◌, arith, All,
}
use hvbench.Base.Int.{to_i32, to_u32, to_u32-to_i32}
use hvbench.Msg.Messages.{Time, ScheduledMsg}
use hvbench.Stats.Latency.{Sent}
use hvbench.Stats.Latency.Spec.{answered}
use hvbench.Stats.Latency.Loss.{Unused}
use hvbench.Controller.Run.{
  Phase, awaiting_switch, setting_up, fetching, waiting, recording, finished,
}
use hvbench.Controller.Laws.Waiting.{entry_of}

-- The xids rise strictly along the list, and stay below a bound.
abbrev pub Rises : List Sent → ℕ → Type 0
Rises [] b = Unit {0}
Rises (m ∷ ms) b = (m.xid < b) × All (λ n. m.xid < n.xid) ms × Rises ms b

pub Rises-raise : (ms : List Sent) {b c : ℕ} → b ≤ c → Rises ms b → Rises ms c
Rises-raise [] le r = tt
Rises-raise (m ∷ ms) le r = (omega (arith, r.0, le), r.1, Rises-raise ms le r.2)

All-behind : (P : Sent → Type 0) (ms : List Sent) (s : Sent) → All P ms → P s → All P (ms ++ s ∷ [])
All-behind P [] s a p = (p, tt)
All-behind P (m ∷ ms) s a p = (a.0, All-behind P ms s a.1 p)

pub Rises-behind : (ms : List Sent) (s : Sent) → Rises ms s.xid → Rises (ms ++ s ∷ []) (suc s.xid)
Rises-behind [] s r = (omega arith, tt, tt)
Rises-behind (m ∷ ms) s r =
    (omega (arith, r.0), All-behind (λ n. m.xid < n.xid) ms s r.1 r.0, Rises-behind ms s r.2)

-- A reply leaves a tail of the list.
pub Rises-answered : (xid : ℕ) (ms : List Sent) (b : ℕ) → Rises ms b → Rises (answered xid ms).1 b
unfolding answered
Rises-answered xid [] b r = tt
Rises-answered xid (m ∷ ms) b r = elim (Bool-cases (m.xid == xid)) [
  | inl e ↦ rw e r.2
  | inr e ↦ rw e (Rises-answered xid ms b r.2)
]

-- No request below the bound has the xid at the bound.
pub Rises-Unused : (ms : List Sent) (b : ℕ) → Rises ms b → Unused b ms
Rises-Unused [] b r = tt
Rises-Unused (m ∷ ms) b r = (λ e. omega (arith, r.0, e), Rises-Unused ms b r.2)

-- In a phase, with the number of the last message, the requests wait in rising order of their xids,
-- all of them below the message that is yet to be recorded.
abbrev pub InOrder : Phase → ℕ → List Sent → Type 0
InOrder (waiting m) n ms = (m.of_msg.xid ≡ n) × Rises ms n
InOrder (recording m late now) n ms = (m.of_msg.xid ≡ n) × Rises ms n
InOrder _ n ms = Rises ms (suc n)

pub InOrder-map :
    (p : Phase) (n : ℕ) (ms ms' : List Sent)
    → ((b : ℕ) → Rises ms b → Rises ms' b)
    → InOrder p n ms
    → InOrder p n ms'
InOrder-map awaiting_switch n ms ms' f o = f (suc n) o
InOrder-map setting_up n ms ms' f o = f (suc n) o
InOrder-map fetching n ms ms' f o = f (suc n) o
InOrder-map (waiting m) n ms ms' f o = (o.0, f n o.1)
InOrder-map (recording m late now) n ms ms' f o = (o.0, f n o.1)
InOrder-map finished n ms ms' f o = f (suc n) o

-- The request of the message that was just sent goes behind those with lower numbers.
pub recording-Rises :
    (m : ScheduledMsg) (now : Time) (n : ℕ) (ms : List Sent)
    → m.of_msg.xid ≡ n
    → n < 2 ^ 32
    → Rises ms n
    → Rises (ms ++ entry_of m now ∷ []) (suc n)
recording-Rises m now n ms e w r =
    let xid : to_u32 (to_i32 m.of_msg.xid) ≡ n = omega (arith, to_u32-to_i32 m.of_msg.xid, e) in
    subst (λ b. Rises (ms ++ entry_of m now ∷ []) (suc b)) xid
      (Rises-behind ms (entry_of m now) (subst (Rises ms) (sym xid) r))
