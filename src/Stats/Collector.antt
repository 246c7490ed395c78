-- ===== src/Stats/Collector.antt =====
-- `Collector` (src/statistics/Collector.h and .cpp): the visitor that gathers the figures of one
-- report. What it visits is given by the members that it reads.
use hvbench.Base.{ℕ, ◌==◌, [], List, ◌∷◌, ◌++◌, map, Text, text_key, codes, if◌then◌else◌}
use hvbench.Base.Int.{pos, sub_ℕ, quot, add_one, to_u64}
use hvbench.Base.Result.{Result, ok, out_of_range, or_fault, ◌>>=◌}
use hvbench.Base.Dict.{Dict, insert, lookup, get_or}
use hvbench.External.Boost.{Boost}
use hvbench.External.Accumulators.{Accumulators}
use hvbench.Msg.{Ofpt, ofpt_key, str, req_types}
use hvbench.Msg.Messages.{Time}

pub record Collector : Type 0 where
  pub statistics : Dict Text ℕ
  pub meta : Dict Text Text

unfoldable pub create : Collector
create = record { statistics = []; meta = [] }

-- `addMeta(key, value)`.
unfoldable pub add_meta : Text → Text → Collector → Collector
add_meta key value c = record c { meta = insert key value c.meta }

-- `statistics_[key] = value`.
unfoldable pub put : Text → ℕ → Collector → Collector
put key value c = record c { statistics = insert key value c.statistics }

-- `toJson()`: what is added to the property tree, in order; `write_json` is Boost's.
unfoldable pub to_json : Boost → (List (Text × Text) → Text) → Collector → Text
to_json b write_json c = write_json (map (λ e. (e.0, b.print (pos e.1))) c.statistics ++ c.meta)

module _ (b : Boost) (a : Accumulators) where
  open b use {format}

  -- One round of `visit(OFLatencyStats)`; `STR.at` throws for a kind with no name.
  unfoldable pub visit_kind : Ofpt → a.Acc → Collector → Result Collector
  unfolding lookup put str
  visit_kind key acc c = do
    name ← or_fault (lookup key str) out_of_range
    let key_mean = format (codes "latency_%s_mean") (name ∷ [])
    let key_min = format (codes "latency_%s_min") (name ∷ [])
    let key_max = format (codes "latency_%s_max") (name ∷ [])
    ok (
        if a.count acc == 0
        then put key_max 0 (put key_min 0 (put key_mean 0 c))
        else put key_max (a.max acc) (put key_min (a.min acc) (put key_mean (a.mean acc) c)))

  unfoldable pub visit_latency : Dict Ofpt a.Acc → Collector → Result Collector
  unfolding visit_kind
  visit_latency [] c = ok c
  visit_latency ((key, acc) ∷ m) c = do c' ← visit_kind key acc c; visit_latency m c'

module _ (b : Boost) where
  -- The loop of `visit(HVBenchController)`.
  unfoldable pub visit_counters : List Ofpt → Dict Ofpt ℕ → Collector → Result Collector
  unfolding lookup get_or put str
  visit_counters [] counters c = ok c
  visit_counters (e ∷ es) counters c = do
    name ← or_fault (lookup e str) out_of_range
    visit_counters es counters
        (put (b.format (codes "requests_%s_cnt") (name ∷ [])) (get_or e 0 counters) c)

  -- `visit(HVBenchController)` at the time `now`; `stamp` is the number of milliseconds since the
  -- start of 2015.
  unfoldable pub visit_controller : Time → ℕ → Time → Dict Ofpt ℕ → Collector → Result Collector
  unfolding put visit_counters
  visit_controller now stamp start counters c =
      let duration = add_one (quot (sub_ℕ now start) 1_000_000) in
      visit_counters req_types counters
        (put (codes "timestamp") stamp (put (codes "duration_ms") (to_u64 duration) c))

-- `visit(OFConnWrapper)`.
unfoldable pub visit_conn : ℕ → Collector → Collector
unfolding put
visit_conn byte_cnt c = put (codes "tx_bytes") byte_cnt c
