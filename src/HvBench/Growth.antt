-- ===== src/HvBench/Growth.antt =====
-- What a change, or a step of a tenant, does to the tenants of an instance.
use hvbench.Base.{
  ◌≡◌, refl, sym, ap, ◌⊎◌, inl, inr, Bool-cases, Option-cases, [], ◌∷◌, ◌+◌, length, arith, Text,
  codes, text_eqb, text_key,
}
use hvbench.Base.Result.{
  Result, ok, fault, reply_exception, bad_lexical_cast, out_of_range, >>=-eq-ok,
}
use hvbench.Base.Dict.{has, lookup, insert}
use hvbench.Conf.{c_etcd_ptenants_conf}
use hvbench.Etcd.{KvPairs, Server}
use hvbench.Controller.Defs.{Externals}
use hvbench.Tenant.{TenantHandle, Step, substr, front, back}
use hvbench.Tenant
use hvbench.HvBench.{
  HvBench, Reply, Action, set, update, first, shutdown_key, read_study, on_new_tenant, on_new_node,
  start_node, on_entry, on_change, forward, on_change_tenant_conf, on_change_global,
}
use hvbench.HvBench.Run.{
  Change, instance_change, tenant_change, global_change, Happening, watched, tenant_steps,
  handle_change, caught, step_tenant, happen,
}

module _ (x : Externals) where
  -- What a change does to the tenants: nothing, or an entry is written.
  abbrev pub Grows : HvBench x → HvBench x → Type 0
  Grows h h' =
      (h'.tenants ≡ h.tenants)
      ⊎ ((k : Text) × (t : TenantHandle x) × (h'.tenants ≡ insert k t h.tenants))

  on_new_tenant-Grows :
      (name : Text) (h : HvBench x) {h' : HvBench x} → on_new_tenant x name h ≡ ok h' → Grows h h'
  unfolding on_new_tenant
  on_new_tenant-Grows name h e = elim (Bool-cases (has name h.tenants)) [
    | inl known ↦ let failed = rw (known, on_new_tenant) at e in absurd (cc)
    | inr new ↦
        let last = rw (new, on_new_tenant) at e in inr (name, Tenant.create x name, ground arith)
  ]

  on_new_node-Grows :
      (etcd : Server) (name : Text) (h : HvBench x) {h' : HvBench x}
      → on_new_node x etcd name h ≡ ok h'
      → Grows h h'
  unfolding on_new_node
  on_new_node-Grows etcd name h e = elim (Bool-cases (has name h.nodes)) [
    | inl known ↦ let failed = rw (known, on_new_node) at e in absurd (cc)
    | inr new ↦
        let (n, _, last) = >>=-eq-ok (start_node x etcd name) _ (rw (new, on_new_node) at e) in
        inl (ground arith)
  ]

  on_entry-Grows :
      (etcd : Server) (name kind : Text) (h : HvBench x) {h' : HvBench x}
      → on_entry x etcd name kind h ≡ ok h'
      → Grows h h'
  unfolding on_entry
  on_entry-Grows etcd name kind h e = elim (Bool-cases (text_eqb kind (codes "tenant"))) [
    | inl t ↦ on_new_tenant-Grows name h (rw (t, on_entry) at e)
    | inr not_tenant ↦ elim (Bool-cases (text_eqb kind (codes "node"))) [
      | inl n ↦ on_new_node-Grows etcd name h (rw (not_tenant, n, on_entry) at e)
      | inr not_node ↦ let last = rw (not_tenant, not_node, on_entry) at e in inl (ground arith)
    ]
  ]

  on_change-Grows :
      (act : Action) (etcd : Server) (reply : Reply) (h : HvBench x) {h' : HvBench x}
      → reply.action ≡ act
      → on_change x etcd reply h ≡ ok h'
      → Grows h h'
  unfolding on_change
  on_change-Grows set etcd reply h {h'} a e =
      let ((key, value), _, e₁) =
        >>=-eq-ok {b = h'} (first reply.pairs) _ (rw (a, on_change) at e) in
      elim (Bool-cases (text_eqb key (shutdown_key x h))) [
        | inl down ↦ let last = rw down at e₁ in inl (ground arith)
        | inr entry ↦
            let (name, _, e₂) = >>=-eq-ok (back (x.boost.split key)) _ (rw entry at e₁) in
            on_entry-Grows etcd name value h e₂
      ]
  on_change-Grows _ etcd reply h a e = let last = rw (a, on_change) at e in inl (ground arith)

  forward-Grows :
      (tenant conf_key value : Text) (h : HvBench x) {h' : HvBench x}
      → forward x tenant conf_key value h ≡ ok h'
      → Grows h h'
  unfolding forward
  forward-Grows tenant conf_key value h e = elim (Option-cases (lookup tenant h.tenants)) [
    | inl new ↦ inl (let same = rw (new, forward) at e in ground arith)
    | inr (t, known) ↦
        let (t', _, last) =
          >>=-eq-ok (Tenant.on_change x conf_key value t) _ (rw (known, forward) at e) in
        inr (tenant, t', ground arith)
  ]

  on_change_tenant_conf-Grows :
      (ps : KvPairs) (reply : Reply) (h : HvBench x) {h' : HvBench x}
      → reply.pairs ≡ ps
      → on_change_tenant_conf x reply h ≡ ok h'
      → Grows h h'
  unfolding on_change_tenant_conf
  on_change_tenant_conf-Grows [] reply h a e =
      let last = rw (a, on_change_tenant_conf) at e in inl (ground arith)
  on_change_tenant_conf-Grows ((key, value) ∷ ps) reply h a e =
      let (conf, _, e₁) =
        >>=-eq-ok (substr key (length c_etcd_ptenants_conf + 1)) _
          (rw (a, on_change_tenant_conf) at e) in
      let (tenant, _, e₂) = >>=-eq-ok (front (x.boost.split conf)) _ e₁ in
      let (conf_key, _, e₃) = >>=-eq-ok (substr conf (length tenant + 1)) _ e₂ in
      forward-Grows tenant conf_key value h e₃

  on_change_global-Grows :
      (act : Action) (etcd : Server) (reply : Reply) (h : HvBench x) {h' : HvBench x}
      → reply.action ≡ act
      → on_change_global x etcd reply h ≡ ok h'
      → Grows h h'
  unfolding on_change_global
  on_change_global-Grows update etcd reply h a e =
      let (study, _, last) = >>=-eq-ok (read_study x etcd) _ (rw (a, on_change_global) at e) in
      inl (ground arith)
  on_change_global-Grows _ etcd reply h a e =
      let last = rw (a, on_change_global) at e in inl (ground arith)

  handle_change-Grows :
      (c : Change) (h : HvBench x) {h' : HvBench x} → handle_change x c h ≡ ok h' → Grows h h'
  unfolding handle_change
  handle_change-Grows (instance_change etcd r) h e = on_change-Grows r.action etcd r h refl e
  handle_change-Grows (tenant_change r) h e = on_change_tenant_conf-Grows r.pairs r h refl e
  handle_change-Grows (global_change etcd r) h e = on_change_global-Grows r.action etcd r h refl e

  -- An exception that is caught leaves the instance as it was.
  caught-cases :
      (h : HvBench x) (r : Result (HvBench x)) {h' : HvBench x}
      → caught x h r ≡ ok h'
      → (r ≡ ok h') ⊎ (h ≡ h')
  unfolding caught
  caught-cases h (fault reply_exception) e = inr (ground arith)
  caught-cases h (fault bad_lexical_cast) e = inr (ground arith)
  caught-cases h (fault out_of_range) e = inr (ground arith)
  caught-cases h (fault _) e = absurd (cc)
  caught-cases h (ok h₁) e = inl e

  step_tenant-Grows :
      (id : Text) (s : Step) (h : HvBench x) {h' : HvBench x}
      → step_tenant x id s h ≡ ok h'
      → Grows h h'
  unfolding step_tenant
  step_tenant-Grows id s h e = elim (Option-cases (lookup id h.tenants)) [
    | inl new ↦ inl (let same = rw (new, step_tenant) at e in ground arith)
    | inr (t, known) ↦
        let (t', _, last) =
          >>=-eq-ok (Tenant.advance x h.output s t) _ (rw (known, step_tenant) at e) in
        inr (id, t', ground arith)
  ]

  pub happen-Grows :
      (c : Happening) (h : HvBench x) {h' : HvBench x} → happen x c h ≡ ok h' → Grows h h'
  unfolding happen
  happen-Grows (watched c) h {h'} e = elim (caught-cases h (handle_change x c h) e) [
    | inl ends ↦ handle_change-Grows c h ends
    | inr same ↦ inl (ap (λ (k : HvBench x). k.tenants) (sym same))
  ]
  happen-Grows (tenant_steps id s) h e = step_tenant-Grows id s h e
