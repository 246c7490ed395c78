-- ===== src/Controller/Laws/Report.antt =====
-- What a tenant's report says of its messages.
use hvbench.Base.{◌≡◌, ◌≢◌, sym, ◌∙◌, ap, true, some, arith, Text, ◌++◌, codes, text_key, ℕ}
use hvbench.Base.Result.{ok, >>=-eq-ok}
use hvbench.Base.Dict.{lookup, insert, get_or, lookup-insert_self, lookup-insert_ne}
use hvbench.Msg.{Ofpt, ofpt_key, str, req_types}
use hvbench.Msg.Laws.{contains}
use hvbench.Conn.{Conn}
use hvbench.Stats.Collector.{Collector, visit_controller, visit_latency, visit_conn}
use hvbench.Stats.Figures.{requests_key_lem, visit_controller_lem, visit_latency-other}
use hvbench.Controller.Defs.{Externals, Controller}
use hvbench.Controller.Run.{Reading, accept}

module _ (x : Externals) where
  -- A report, whatever was collected before, has the number of the messages of each kind that is sent
  -- under `requests_<NAME>_cnt`, no other figure overwrites it, and under `tx_bytes` the bytes that
  -- the connection has counted.
  pub accept_figures :
      (rd : Reading) (c : Controller x) (before : Collector) {col : Collector} {d : Controller x}
      (k : Ofpt) (name : Text) (conn : Conn)
      → contains req_types k ≡ true
      → lookup k str ≡ some name
      → c.conn ≡ some conn
      → accept x rd c before ≡ ok (col, d)
      → (lookup (codes "requests_" ++ name ++ codes "_cnt") col.statistics
          ≡ some (get_or k 0 c.counters))
        × (lookup (codes "tx_bytes") col.statistics ≡ some conn.byte_cnt)
  unfolding accept visit_conn
  accept_figures rd c before {col} k name conn r n linked h =
      let (col₁, first, rest) =
        >>=-eq-ok (visit_controller x.boost rd.visit_now rd.stamp c.start c.counters before) _ h in
      let (col₂, second, rest₂) =
        >>=-eq-ok (visit_latency x.boost x.acc c.latency_stats.stats_latency col₁) _ rest in
      let last : visit_conn conn.byte_cnt col₂ ≡ col = ground arith in
      let differ : ◌≢◌ {A = ℕ} b't' b'r' = λ same. omega (arith, same) in
      let counted = visit_controller_lem x.boost _ _ _ c.counters before k name r n first in
      let key = codes "requests_" ++ name ++ codes "_cnt" in
      let kept : lookup key col₂.statistics ≡ lookup key col₁.statistics =
        visit_latency-other x.boost x.acc c.latency_stats.stats_latency col₁ b'r'
          (codes "equests_" ++ name ++ codes "_cnt") (omega arith) second in
      let written : lookup key (insert (codes "tx_bytes") conn.byte_cnt col₂.statistics)
          ≡ lookup key col₂.statistics =
        lookup-insert_ne (codes "tx_bytes") key conn.byte_cnt col₂.statistics
          (λ same. differ (cc)) in
      (
        sym (ap (λ (c : Collector). lookup key c.statistics) last)
            ∙ written
            ∙ kept
            ∙ ap (λ s. lookup s col₁.statistics) (sym (requests_key_lem x.boost name))
            ∙ counted,
        sym (ap (λ (c : Collector). lookup (codes "tx_bytes") c.statistics) last)
            ∙ lookup-insert_self (codes "tx_bytes") conn.byte_cnt col₂.statistics,
      )
