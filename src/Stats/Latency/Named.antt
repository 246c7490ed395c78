-- ===== src/Stats/Latency/Named.antt =====
-- The kinds that `OFLatencyStats` holds have names, so that a report of them does not stop.
use hvbench.Base.{
  ℕ, ◌≡◌, refl, Bool-cases, inl, inr, List, [], ◌∷◌, none, some, Option, All, All-append, ◌==◌,
}
use hvbench.Base.Int.{ℤ, to_u32}
use hvbench.Base.Result.{ok, ◌>>=◌}
use hvbench.Base.Dict.{Dict, lookup, insert, insert-All}
use hvbench.External.Boost.{Boost}
use hvbench.External.Queue.{ConcurrentQueue}
use hvbench.External.Accumulators.{Accumulators}
use hvbench.Msg.{Ofpt, ofpt_key, ofpt_eqb, str, latency_types}
use hvbench.Msg.Messages.{Time}
use hvbench.Msg.Laws.{IsNamed}
use hvbench.Stats.Latency.{Sent, LatencyStats, clear, note, reset, create, sent, received}
use hvbench.Stats.Latency.Spec.{answered, note_found, received-Answers}
use hvbench.Stats.Collector.{Collector, visit_kind, visit_latency}

abbrev OnSome : Option Sent → Type 0
OnSome none = Unit {0}
OnSome (some s) = IsNamed s.type

abbrev NamedList : List Sent → Type 0
NamedList = All (λ s. IsNamed s.type)

answered-Named :
    (xid : ℕ) (ms : List Sent)
    → NamedList ms
    → OnSome (answered xid ms).0 × NamedList (answered xid ms).1
unfolding answered
answered-Named xid [] h = (tt, tt)
answered-Named xid (m ∷ ms) h = elim (Bool-cases (m.xid == xid)) [
  | inl here ↦ rw (answered, here) h
  | inr later ↦ rw (answered, later) (answered-Named xid ms h.1)
]

module _ (a : Accumulators) where
  abbrev NamedSamples : Dict Ofpt a.Acc → Type 0
  NamedSamples = All (λ e. IsNamed e.0)

  note_found-Named :
      (o : Option Sent) (tp : Time) (m : Dict Ofpt a.Acc)
      → OnSome o
      → NamedSamples m
      → NamedSamples (note_found a o tp m)
  unfolding note_found note
  note_found-Named none tp m h all = all
  note_found-Named (some s) tp m h all = insert-All (λ e. IsNamed e.0) s.type _ m h all

  clear-Named :
      (ts : List Ofpt) (m : Dict Ofpt a.Acc)
      → All IsNamed ts
      → NamedSamples m
      → NamedSamples (clear a ts m)
  unfolding clear
  clear-Named [] m h all = all
  clear-Named (t ∷ ts) m h all =
      clear-Named ts (insert t a.fresh m) h.1 (insert-All (λ e. IsNamed e.0) t a.fresh m h.0 all)

  latency_types-IsNamed : All IsNamed latency_types
  unfolding lookup str ofpt_eqb
  latency_types-IsNamed = ((_, refl), ((_, refl), ((_, refl), ((_, refl), tt))))

  visit_kind_total :
      (b : Boost) (key : Ofpt) (acc : a.Acc) (c : Collector)
      → IsNamed key
      → (d : Collector) × (visit_kind b a key acc c ≡ ok d)
  visit_kind_total b key acc c (name, e) = unfold visit_kind in rw e (_, refl)

  -- A round over named kinds ends.
  pub visit_latency_total :
      (b : Boost) (m : Dict Ofpt a.Acc) (c : Collector)
      → NamedSamples m
      → (d : Collector) × (visit_latency b a m c ≡ ok d)
  unfolding visit_latency
  visit_latency_total b [] c h = (c, refl)
  visit_latency_total b ((key, acc) ∷ m) c h =
      let (d, first) = visit_kind_total b key acc c h.0 in
      rw (first, ◌>>=◌) (visit_latency_total b m d h.1)

module _ (q : ConcurrentQueue Sent) (a : Accumulators) where
  -- Every kind that waits or has samples is named.
  abbrev pub Named : LatencyStats q a → Type 0
  Named s = NamedList (q.contents s.reply_waiting_list) × NamedSamples a s.stats_latency

  pub reset-Named : (s : LatencyStats q a) → Named s → Named (reset q a s)
  unfolding reset
  reset-Named s n = (n.0, clear-Named a latency_types s.stats_latency (latency_types-IsNamed a) n.1)

  pub create-Named : Named (create q a)
  unfolding create
  create-Named =
      reset-Named (record { reply_waiting_list = q.new; stats_latency = [] })
        (rw q.contents-new tt, tt)

  pub sent-Named :
      (s : LatencyStats q a) (xid : ℤ) (type : Ofpt) (tp : Time)
      → IsNamed type
      → Named s
      → Named (sent q a s xid type tp)
  unfolding sent
  sent-Named s xid type tp h n =
      let m : Sent = record { xid = to_u32 xid; type = type; tp = tp } in
      elim (Bool-cases (q.try_enqueue s.reply_waiting_list m).1) [
        | inl room ↦ (
          rw (q.enqueued s.reply_waiting_list m room)
              (All-append (λ (s : Sent). IsNamed s.type) _ (m ∷ []) n.0 (h, tt)),
          n.1,
        )
        | inr full ↦ (rw (q.refused s.reply_waiting_list m full) n.0, n.1)
      ]

  -- A reply is handled to the end, and brings in no other kinds.
  pub received-Named :
      (s : LatencyStats q a) (xid : ℤ) (type : ℕ) (tp : Time)
      → Named s
      → (t : LatencyStats q a) × (received q a s xid type tp ≡ ok t) × Named t
  received-Named s xid type tp n =
      let (t, done, left, noted) = received-Answers q a s xid type tp in
      let (found, rest) = answered-Named (to_u32 xid) (q.contents s.reply_waiting_list) n.0 in
      (t, done, (rw left rest, rw noted (note_found-Named a _ tp s.stats_latency found n.1)))
