-- ===== src/Stats/Latency/Loss.antt =====
-- Which response times `OFLatencyStats` records and which it loses, over several calls.
use hvbench.Base.{
  ℕ, ◌^◌, ◌<◌, ◌≡◌, refl, ◌∙◌, ap, ◌≢◌, true, List, [], ◌∷◌, ◌++◌, map, none, some, arith, All,
  if◌then◌else◌,
}
use hvbench.Base.Int.{ℤ, to_u32, to_i32, to_u32-to_i32}
use hvbench.Base.Result.{Result, ok, ◌>>=◌}
use hvbench.Base.Dict.{Dict, lookup, insert, lookup-insert}
use hvbench.External.Queue.{ConcurrentQueue}
use hvbench.External.Accumulators.{Accumulators}
use hvbench.Msg.{Ofpt, ofpt_key, latency_types}
use hvbench.Msg.Messages.{Time}
use hvbench.Msg.Laws.{contains}
use hvbench.Stats.Latency.{Sent, LatencyStats, note, clear, reset, sent, received}
use hvbench.Stats.Latency.Spec.{answered, note_found, received-Answers}

-- No request in the list has the xid.
abbrev pub Unused : ℕ → List Sent → Type 0
Unused xid = All (λ m. m.xid ≢ xid)

answered-Unused : (xid : ℕ) (ms : List Sent) → Unused xid ms → answered xid ms ≡ (none, [])
unfolding answered
answered-Unused xid [] h = refl
answered-Unused xid (m ∷ ms) h = ground (arith, answered-Unused xid ms h.1, h.0)

answered_behind :
    (m : Sent) (pre suf : List Sent)
    → Unused m.xid pre
    → answered m.xid (pre ++ m ∷ suf) ≡ (some m, suf)
unfolding answered
answered_behind m [] suf h = ground arith
answered_behind m (p ∷ pre) suf h = ground (arith, answered_behind m pre suf h.1, h.0)

-- The xid of a stored request, as the 32-bit word that it is.
abbrev pub IsWord : Sent → Type 0
IsWord m = m.xid < 2 ^ 32

xid_word : (m : Sent) → IsWord m → to_u32 (to_i32 m.xid) ≡ m.xid
xid_word m h = omega (arith, to_u32-to_i32 m.xid)

module _ (q : ConcurrentQueue Sent) (a : Accumulators) where
  -- A request and the time of the reply to it.
  abbrev Reply : Type 0
  Reply = Sent × Time

  -- A run of calls that ends, with the requests left waiting and the samples.
  abbrev pub Ends : Result (LatencyStats q a) → List Sent → Dict Ofpt a.Acc → Type 0
  Ends r left samples =
      (t : LatencyStats q a) × (r ≡ ok t)
      × (q.contents t.reply_waiting_list ≡ left)
      × (t.stats_latency ≡ samples)

  -- Replies, in the order in which they come in.
  unfoldable pub replies : List Reply → LatencyStats q a → Result (LatencyStats q a)
  replies [] s = ok s
  replies ((m, tp) ∷ rs) s = do t ← received q a s (to_i32 m.xid) 0 tp; replies rs t

  -- One reply to a request that waits behind others with other xids.
  pub received_behind :
      (s : LatencyStats q a) (m : Sent) (pre suf : List Sent) (type : ℕ) (tp : Time)
      → IsWord m
      → q.contents s.reply_waiting_list ≡ pre ++ m ∷ suf
      → Unused m.xid pre
      → Ends (received q a s (to_i32 m.xid) type tp) suf (note a m tp s.stats_latency)
  unfolding note_found
  received_behind s m pre suf type tp w e h =
      let (t, done, left, noted) = received-Answers q a s (to_i32 m.xid) type tp in
      let found : answered (to_u32 (to_i32 m.xid)) (q.contents s.reply_waiting_list)
          ≡ (some m, suf) =
        rw (xid_word m w, e) (answered_behind m pre suf h) in
      (
        t,
        done,
        left ∙ ap (λ p. p.1) found,
        noted ∙ ap (λ p. note_found a p.0 tp s.stats_latency) found,
      )

  -- A reply that no waiting request belongs to.
  received-Unused :
      (s : LatencyStats q a) (xid : ℤ) (type : ℕ) (tp : Time)
      → Unused (to_u32 xid) (q.contents s.reply_waiting_list)
      → Ends (received q a s xid type tp) [] s.stats_latency
  unfolding note_found
  received-Unused s xid type tp h =
      let (t, done, left, noted) = received-Answers q a s xid type tp in
      let found = answered-Unused (to_u32 xid) (q.contents s.reply_waiting_list) h in
      (
        t,
        done,
        left ∙ ap (λ p. p.1) found,
        noted ∙ ap (λ p. note_found a p.0 tp s.stats_latency) found,
      )

  -- The samples of replies, each to its own request.
  unfoldable pub note_all : List Reply → Dict Ofpt a.Acc → Dict Ofpt a.Acc
  note_all [] m = m
  note_all ((s, tp) ∷ rs) m = note_all rs (note a s tp m)

  -- Where the replies are those to the waiting requests, in their order, each response time is
  -- recorded, once and in this order, and nothing is left waiting.
  pub replies_in_order :
      (rs : List Reply) (s : LatencyStats q a)
      → q.contents s.reply_waiting_list ≡ map (λ r. r.0) rs
      → All (λ r. IsWord r.0) rs
      → Ends (replies rs s) [] (note_all rs s.stats_latency)
  unfolding replies note_all
  replies_in_order [] s e w = (s, refl, e, refl)
  replies_in_order ((m, tp) ∷ rs) s e w =
      let (t, done, left, noted) = received_behind s m [] (map (λ r. r.0) rs) 0 tp w.0 e tt in
      let (u, all, empty, samples) = replies_in_order rs t left w.1 in
      (u, rw done all, empty, samples ∙ ap (note_all rs) noted)

  -- A reply, the first with its xid on the list, takes the requests before it off the list. Where a
  -- later reply then belongs to no request that still waits, no time is recorded for it, and all
  -- that still wait are dropped.
  pub overtaken_reply :
      (s : LatencyStats q a) (late m : Sent) (pre suf : List Sent) (tp tp' : Time)
      → IsWord late
      → IsWord m
      → q.contents s.reply_waiting_list ≡ pre ++ m ∷ suf
      → Unused m.xid pre
      → Unused late.xid suf
      → Ends (replies ((m, tp) ∷ (late, tp') ∷ []) s) [] (note a m tp s.stats_latency)
  unfolding replies
  overtaken_reply s late m pre suf tp tp' wl wm e h k =
      let (t, done, left, noted) = received_behind s m pre suf 0 tp wm e h in
      let unused : Unused (to_u32 (to_i32 late.xid)) (q.contents t.reply_waiting_list) =
        rw (xid_word late wl, left) k in
      let (u, ends, empty, same) = received-Unused t (to_i32 late.xid) 0 tp' unused in
      (u, rw (done, ends), empty, same ∙ noted)

  -- A reply at `tp'` is handled, and then the request, sent at `tp`, is recorded.
  unfoldable pub received_then_sent :
      LatencyStats q a → ℤ → Ofpt → ℕ → Time → Time → Result (LatencyStats q a)
  received_then_sent s xid type value tp tp' = do
    t ← received q a s xid value tp'
    ok (sent q a t xid type tp)

  -- A reply that is handled before its own request is recorded as sent, where no waiting request has
  -- its xid, empties the waiting list without a sample, and the request, if the queue that is left has
  -- room for it, is then left waiting alone.
  pub received_before_sent :
      (s : LatencyStats q a) (xid : ℤ) (type : Ofpt) (value : ℕ) (tp tp' : Time)
      → Unused (to_u32 xid) (q.contents s.reply_waiting_list)
      → ((t : LatencyStats q a)
          → received q a s xid value tp' ≡ ok t
          → (q.try_enqueue t.reply_waiting_list
              (record { xid = to_u32 xid; type = type; tp = tp })).1
            ≡ true)
      → Ends
          (received_then_sent s xid type value tp tp')
          (record { xid = to_u32 xid; type = type; tp = tp } ∷ [])
          s.stats_latency
  unfolding sent received_then_sent
  received_before_sent s xid type value tp tp' h room =
      let (t, done, empty, same) = received-Unused s xid value tp' h in
      let m : Sent = record { xid = to_u32 xid; type = type; tp = tp } in
      (
        sent q a t xid type tp,
        rw done,
        q.enqueued t.reply_waiting_list m (room t done) ∙ ap (λ l. l ++ m ∷ []) empty,
        same,
      )

  lookup-clear :
      (ts : List Ofpt) (t : Ofpt) (m : Dict Ofpt a.Acc)
      → lookup t (clear a ts m) ≡ (if contains ts t then some a.fresh else lookup t m)
  unfolding clear contains
  lookup-clear [] t m = refl
  lookup-clear (x ∷ ts) t m =
      ground (arith, lookup-clear ts t (insert x a.fresh m), lookup-insert x t a.fresh m)

  -- `reset` gives each measured kind an empty accumulator, and leaves every other entry and the
  -- waiting list as they are.
  pub lookup-reset :
      (s : LatencyStats q a) (t : Ofpt)
      → (lookup t (reset q a s).stats_latency
          ≡ (if contains latency_types t then some a.fresh else lookup t s.stats_latency))
        × ((reset q a s).reply_waiting_list ≡ s.reply_waiting_list)
  unfolding reset
  lookup-reset s t = (lookup-clear latency_types t s.stats_latency, refl)
