-- ===== src/Stats/Latency.antt =====
-- `OFLatencyStats` (src/statistics/OFLatencyStats.h and .cpp): the requests that wait for a reply,
-- and the response times by kind of message. The lock around the map is not modelled: a call here
-- is one step.
pub mod Spec
pub mod Loss
pub mod Named
use hvbench.Base.{ℕ, zero, suc, ◌==◌, Bool, [], List, ◌∷◌, none, some, length, if◌then◌else◌, not}
use hvbench.Base.Int.{ℤ, sub_ℕ, quot, to_u32}
use hvbench.Base.Result.{Result, ok, fault, no_fuel}
use hvbench.Base.Dict.{Dict, insert, get_or}
use hvbench.External.Queue.{ConcurrentQueue}
use hvbench.External.Accumulators.{Accumulators}
use hvbench.Msg.{Ofpt, ofpt_key, latency_types}
use hvbench.Msg.Messages.{Time}

-- `sent_msg_t`; the xid is a `uint32_t`.
pub record Sent : Type 0 where
  pub xid : ℕ
  pub type : Ofpt
  pub tp : Time

pub record LatencyStats (q : ConcurrentQueue Sent) (a : Accumulators) : Type 0 where
  pub reply_waiting_list : q.Q
  pub stats_latency : Dict Ofpt a.Acc

module _ (a : Accumulators) where
  -- The loop of `reset`.
  unfoldable pub clear : List Ofpt → Dict Ofpt a.Acc → Dict Ofpt a.Acc
  clear [] m = m
  clear (t ∷ ts) m = clear ts (insert t a.fresh m)

  -- The sample that a reply at `tp` makes of a request: whole microseconds, as a `uint32_t`.
  unfoldable pub note : Sent → Time → Dict Ofpt a.Acc → Dict Ofpt a.Acc
  unfolding get_or quot to_u32
  note last tp m =
      insert last.type (a.add (get_or last.type a.fresh m) (to_u32 (quot (sub_ℕ tp last.tp) 1000)))
        m

module _ (q : ConcurrentQueue Sent) (a : Accumulators) where
  unfoldable pub reset : LatencyStats q a → LatencyStats q a
  unfolding clear
  reset s = record s { stats_latency = clear a latency_types s.stats_latency }

  -- The constructor.
  unfoldable pub create : LatencyStats q a
  unfolding reset
  create = reset (record { reply_waiting_list = q.new; stats_latency = [] })

  -- `sent(xid, type, tp)`; whether the queue took the entry is not looked at.
  unfoldable pub sent : LatencyStats q a → ℤ → Ofpt → Time → LatencyStats q a
  sent s xid type tp = record s {
    reply_waiting_list =
        (q.try_enqueue s.reply_waiting_list (record { xid = to_u32 xid; type = type; tp = tp })).0;
  }

  -- The loop of `received`, with fuel.
  unfoldable pub received_loop : ℕ → LatencyStats q a → ℤ → Time → Result (LatencyStats q a)
  unfolding note
  received_loop zero s xid tp = fault no_fuel
  received_loop (suc n) s xid tp = elim (q.try_dequeue s.reply_waiting_list) [
    | none ↦ ok s
    | some (last, w) ↦
        let rest = received_loop n (record s { reply_waiting_list = w }) xid tp in
        if not (last.xid == to_u32 xid)
        then rest
        else ok (record { reply_waiting_list = w; stats_latency = note a last tp s.stats_latency })
  ]

  -- `received(xid, type, tp)`; the type is not read. A round takes one entry off the list, so the
  -- rounds are at most one more than the entries.
  unfoldable pub received : LatencyStats q a → ℤ → ℕ → Time → Result (LatencyStats q a)
  unfolding received_loop
  received s xid type tp = received_loop (suc (length (q.contents s.reply_waiting_list))) s xid tp
