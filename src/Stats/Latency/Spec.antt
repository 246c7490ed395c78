-- ===== src/Stats/Latency/Spec.antt =====
-- What `received` does to the waiting list, stated on the list itself.
use hvbench.Base.{
  ℕ, zero, suc, ◌<◌, ◌==◌, ◌≡◌, refl, inl, inr, Bool-cases, List, [], ◌∷◌, Option, none, some,
  arith, length, if◌then◌else◌,
}
use hvbench.Base.Int.{ℤ, to_u32}
use hvbench.Base.Result.{Result, ok}
use hvbench.Base.Dict.{Dict}
use hvbench.External.Queue.{ConcurrentQueue}
use hvbench.External.Accumulators.{Accumulators}
use hvbench.Msg.{Ofpt}
use hvbench.Msg.Messages.{Time}
use hvbench.Stats.Latency.{Sent, LatencyStats, note, received_loop, received}

-- The first request with the xid, and the requests behind it: those before it are gone.
unfoldable pub answered : ℕ → List Sent → Option Sent × List Sent
answered xid [] = (none, [])
answered xid (m ∷ ms) = let rest = answered xid ms in if m.xid == xid then (some m, ms) else rest

unfoldable pub note_found :
    (a : Accumulators) → Option Sent → Time → Dict Ofpt a.Acc → Dict Ofpt a.Acc
note_found a none tp m = m
note_found a (some s) tp m = note a s tp m

module _ (q : ConcurrentQueue Sent) (a : Accumulators) where
  -- A call ends, with the given waiting list and samples.
  abbrev pub Answers : LatencyStats q a → ℕ → Time → List Sent → Result (LatencyStats q a) → Type 0
  Answers s xid tp ms r =
      (t : LatencyStats q a) × (r ≡ ok t)
      × (q.contents t.reply_waiting_list ≡ (answered xid ms).1)
      × (t.stats_latency ≡ note_found a (answered xid ms).0 tp s.stats_latency)

  received_loop-Answers :
      (n : ℕ) (s : LatencyStats q a) (xid : ℤ) (tp : Time) (ms : List Sent)
      → q.contents s.reply_waiting_list ≡ ms
      → length ms < n
      → Answers s (to_u32 xid) tp ms (received_loop q a n s xid tp)
  unfolding received_loop answered note_found
  received_loop-Answers zero s xid tp ms e h = absurd (omega arith)
  received_loop-Answers (suc n) s xid tp [] e h =
      rw (q.dequeue_empty _ e, received_loop) (s, refl, e, refl)
  received_loop-Answers (suc n) s xid tp (m ∷ ms) e h =
      let (w, taken, rest) = q.dequeue_first _ m ms e in
      elim (Bool-cases (m.xid == to_u32 xid)) [
        | inl here ↦
            rw (taken, received_loop, here)
              (
                record { reply_waiting_list = w; stats_latency = note a m tp s.stats_latency },
                refl,
                rest,
                refl,
              )
        | inr later ↦
            rw (taken, received_loop, later)
              (received_loop-Answers n (record s { reply_waiting_list = w }) xid tp ms rest
                (omega arith))
      ]

  -- `received` always ends. It takes the first waiting request with the xid off the list with all
  -- those before it, and records the response time of that one only; where no request has the xid,
  -- the list ends up empty and no time is recorded.
  pub received-Answers :
      (s : LatencyStats q a) (xid : ℤ) (type : ℕ) (tp : Time)
      → Answers s (to_u32 xid) tp (q.contents s.reply_waiting_list) (received q a s xid type tp)
  unfolding received
  received-Answers s xid type tp =
      received_loop-Answers (suc (length (q.contents s.reply_waiting_list))) s xid tp _ refl
        (omega arith)
