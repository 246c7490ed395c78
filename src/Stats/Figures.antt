-- ===== src/Stats/Figures.antt =====
-- What a report says of each figure, under its own name.
use mathlib.Core.Path.{subst}
use mathlib.Core.List.{append_cancel_left, append_cancel_right}
use hvbench.Base.{
  ◌=?◌, false, ◌≡◌, ◌≢◌, sym, ◌∙◌, ap, inl, inr, true, Bool-cases, List, [], ◌∷◌, ◌++◌, some,
  Option, ◌==◌, ℕ, arith, Text, text_key, codes, if◌then◌else◌,
}
use hvbench.Msg.Laws.{contains, lookup-str_iff}
use mathlib.Core.Option.{some-injective}
use hvbench.Base.Result.{ok, or_fault, >>=-eq-ok, out_of_range, ok-injective}
use hvbench.Base.Dict.{Dict, lookup, insert, lookup-insert_ne, lookup-insert_self, get_or}
use hvbench.External.Boost.{Boost, Without, format_plain}
use hvbench.External.Accumulators.{Accumulators}
use hvbench.Msg.{Ofpt, ofpt_key, ofpt_eqb_iff, str, rstr, req_types}
use hvbench.Msg.Messages.{Time}
use hvbench.Stats.Collector.{
  Collector, put, visit_kind, visit_latency, visit_counters, visit_controller,
}

or_fault-some : (o : Option Text) (v : Text) → or_fault o out_of_range ≡ ok v → o ≡ some v
or_fault-some o v h = ground arith

module _ (b : Boost) where
  open b use {format, format_copy, format_s}

  -- A directive between two texts without any.
  format_around :
      (pre a suf : Text)
      → Without b'%' pre
      → Without b'%' suf
      → format (pre ++ b'%' ∷ b's' ∷ suf) (a ∷ []) ≡ pre ++ a ++ suf
  format_around [] a suf h g = rw (format_s a suf []) (ap (◌++◌ a) (format_plain b suf g))
  format_around (c ∷ pre) a suf h g =
      rw (format_copy c (pre ++ b'%' ∷ b's' ∷ suf) (a ∷ []) h.0)
        (ap (◌∷◌ c) (format_around pre a suf h.1 g))

  -- The key of the number of messages of a kind with the name.
  abbrev pub requests_key : Text → Text
  requests_key name = format (codes "requests_%s_cnt") (name ∷ [])

  pub requests_key_lem :
      (name : Text) → requests_key name ≡ codes "requests_" ++ name ++ codes "_cnt"
  requests_key_lem name =
      format_around (codes "requests_") name (codes "_cnt") (omega arith) (omega arith)

  -- A key that begins with `l` is not one that begins otherwise.
  lookup-l :
      (n : ℕ) (m : Dict Text ℕ) (key rest : Text) (x : ℕ) (s : Text)
      → b'l' ≢ x
      → key ≡ b'l' ∷ rest
      → lookup (x ∷ s) (insert key n m) ≡ lookup (x ∷ s) m
  lookup-l n m key rest x s h e = lookup-insert_ne key (x ∷ s) n m (λ same. absurd (h (cc)))

  module _ (a : Accumulators) where
    visit_kind-other :
        (k : Ofpt) (acc : a.Acc) (col : Collector) {col' : Collector} (x : ℕ) (s : Text)
        → b'l' ≢ x
        → visit_kind b a k acc col ≡ ok col'
        → lookup (x ∷ s) col'.statistics ≡ lookup (x ∷ s) col.statistics
    unfolding visit_kind put
    visit_kind-other k acc col {col'} x s h e =
        let (name, _, rest) = >>=-eq-ok (or_fault (lookup k str) out_of_range) _ e in
        let begins : (suf : Text)
            → format (codes "latency_" ++ b'%' ∷ b's' ∷ suf) (name ∷ [])
              ≡ b'l' ∷ format (codes "atency_" ++ b'%' ∷ b's' ∷ suf) (name ∷ []) =
          λ suf. format_copy b'l' _ (name ∷ []) (omega arith) in
        let mean : (n : ℕ) (m : Dict Text ℕ)
            → lookup (x ∷ s) (insert (format (codes "latency_%s_mean") (name ∷ [])) n m)
              ≡ lookup (x ∷ s) m =
          λ n m. lookup-l n m _ _ x s h (begins (codes "_mean")) in
        let min : (n : ℕ) (m : Dict Text ℕ)
            → lookup (x ∷ s) (insert (format (codes "latency_%s_min") (name ∷ [])) n m)
              ≡ lookup (x ∷ s) m =
          λ n m. lookup-l n m _ _ x s h (begins (codes "_min")) in
        let max : (n : ℕ) (m : Dict Text ℕ)
            → lookup (x ∷ s) (insert (format (codes "latency_%s_max") (name ∷ [])) n m)
              ≡ lookup (x ∷ s) m =
          λ n m. lookup-l n m _ _ x s h (begins (codes "_max")) in
        elim (Bool-cases (a.count acc == 0)) [
          | inl none_ ↦
              let last = ok-injective _ _ (rw none_ at rest) in
              sym (ap (λ (c : Collector). lookup (x ∷ s) c.statistics) last)
              ∙ max _ _
              ∙ min _ _
              ∙ mean _ _
          | inr any ↦
              let last = ok-injective _ _ (rw any at rest) in
              sym (ap (λ (c : Collector). lookup (x ∷ s) c.statistics) last)
              ∙ max _ _
              ∙ min _ _
              ∙ mean _ _
        ]

    -- The visit of the response times writes under keys that begin with `l`.
    pub visit_latency-other :
        (m : Dict Ofpt a.Acc) (col : Collector) {col' : Collector} (x : ℕ) (s : Text)
        → b'l' ≢ x
        → visit_latency b a m col ≡ ok col'
        → lookup (x ∷ s) col'.statistics ≡ lookup (x ∷ s) col.statistics
    unfolding visit_latency
    visit_latency-other [] col x s h e = ground arith
    visit_latency-other ((k, acc) ∷ m) col x s h e =
        let (col₁, first, rest) = >>=-eq-ok (visit_kind b a k acc col) _ e in
        visit_latency-other m col₁ x s h rest ∙ visit_kind-other k acc col x s h first

  requests_key-injective : (s t : Text) → requests_key s ≡ requests_key t → s ≡ t
  requests_key-injective s t h = append_cancel_right s t (codes "_cnt") (
      append_cancel_left (codes "requests_") (s ++ codes "_cnt") (t ++ codes "_cnt")
        (sym (requests_key_lem s) ∙ h ∙ requests_key_lem t))

  -- Kinds with different names are counted under different keys.
  requests_key_ne :
      (k e : Ofpt) (name name_e : Text)
      → lookup k str ≡ some name
      → lookup e str ≡ some name_e
      → (e =? k) ≡ false
      → requests_key name_e ≢ requests_key name
  requests_key_ne k e name name_e n n_e differ same =
      let equal = requests_key-injective name_e name same in
      let found : lookup name rstr ≡ some e =
        subst (λ s. lookup s rstr ≡ some e) equal ((lookup-str_iff e name_e).0 n_e) in
      let kinds : e ≡ k = some-injective e k (sym found ∙ (lookup-str_iff k name).0 n) in
      let equal_kinds = (ofpt_eqb_iff e k).1 kinds in absurd (cc)

  visit_counters_lem :
      (es : List Ofpt) (counters : Dict Ofpt ℕ) (col : Collector) {col' : Collector} (k : Ofpt)
      (name : Text)
      → lookup k str ≡ some name
      → visit_counters b es counters col ≡ ok col'
      → lookup (requests_key name) col'.statistics ≡ (
          if contains es k
          then some (get_or k 0 counters)
          else lookup (requests_key name) col.statistics)
  unfolding visit_counters contains put
  visit_counters_lem [] counters col k name n h = ground arith
  visit_counters_lem (e ∷ es) counters col k name n h =
      let (name_e, at_e, rest) = >>=-eq-ok (or_fault (lookup e str) out_of_range) _ h in
      let later = visit_counters_lem es counters _ k name n rest in
      elim (Bool-cases (e =? k)) [
        | inl same ↦
            let kinds = (ofpt_eqb_iff e k).0 same in
            let names : name_e ≡ name =
              some-injective name_e name
                (sym (or_fault-some _ name_e at_e) ∙ ap (λ k. lookup k str) kinds ∙ n) in
            let here : lookup (requests_key name)
                  (insert (requests_key name_e) (get_or e 0 counters) col.statistics)
                ≡ some (get_or k 0 counters) =
              rw (names, kinds)
                (lookup-insert_self (requests_key name) (get_or k 0 counters) col.statistics) in
            elim (Bool-cases (contains es k)) [
              | inl again ↦ rw same (rw again at later)
              | inr last ↦ rw same ((rw last at later) ∙ here)
            ]
        | inr other ↦
            let apart = requests_key_ne k e name name_e n (or_fault-some _ name_e at_e) other in
            let here =
              lookup-insert_ne (requests_key name_e) (requests_key name) (get_or e 0 counters)
                col.statistics apart in
            elim (Bool-cases (contains es k)) [
              | inl again ↦ rw (other, again) (rw again at later)
              | inr last ↦ rw (other, last) ((rw last at later) ∙ here)
            ]
      ]

  -- The number of the messages of each kind that is sent stands under the kind's own key.
  pub visit_controller_lem :
      (now : Time) (stamp : ℕ) (start : Time) (counters : Dict Ofpt ℕ) (col : Collector)
      {col' : Collector} (k : Ofpt) (name : Text)
      → contains req_types k ≡ true
      → lookup k str ≡ some name
      → visit_controller b now stamp start counters col ≡ ok col'
      → lookup (requests_key name) col'.statistics ≡ some (get_or k 0 counters)
  unfolding visit_controller
  visit_controller_lem now stamp start counters col k name r n h =
      let all = visit_counters_lem req_types counters _ k name n h in rw r at all
