-- ===== src/HvBench/Startup.antt =====
-- What reaches a tenant before its thread has set it up.
use mathlib.Core.Path.{subst}
use hvbench.Base.{
  ◌≡◌, refl, ◌∙◌, inl, inr, Bool-cases, Option-cases, none, some, [], ◌∷◌, ◌++◌, Text, text_key,
  arith, ◌=?◌,
}
use hvbench.Base.Result.{ok, fault, null_pointer, >>=-eq-ok}
use hvbench.Base.Dict.{Dict, has, lookup, insert}
use hvbench.External.Boost.{Without}
use hvbench.Etcd.{KvPairs}
use hvbench.Controller.Defs.{Externals}
use hvbench.Stats.Output.{OutputBase}
use hvbench.Tenant.{TenantHandle, Rest, update_generator}
use hvbench.Tenant
use hvbench.HvBench.{HvBench, Action, on_new_tenant, forward, on_change_tenant_conf, stop_tenants}
use hvbench.HvBench.Routing.{
  tenant_key, IsGeneratorPart, on_change_tenant_conf-forward, front_split, substr_behind,
}

module _ (x : Externals) where
  stop-create :
      (output : OutputBase) (rest : Rest) (k : Text)
      → Tenant.stop x output rest (Tenant.create x k) ≡ fault null_pointer
  unfolding Tenant.stop Tenant.create
  stop-create output rest k = refl

  insert-fault :
      (rest : Text → Rest) (output : OutputBase) (k j : Text) (t : TenantHandle x)
      (m : Dict Text (TenantHandle x)) {t' : TenantHandle x}
      → Tenant.stop x output (rest j) t ≡ ok (some t')
      → stop_tenants x rest output (insert k (Tenant.create x k) m) ≡ fault null_pointer
      → stop_tenants x rest output (insert k (Tenant.create x k) ((j, t) ∷ m)) ≡ fault null_pointer
  unfolding stop_tenants insert
  insert-fault rest output k j t m told ih = elim (Bool-cases (j =? k)) [
    | inl same ↦ rw (insert, same, stop_tenants, stop-create output (rest k) k) refl
    | inr apart ↦ elim (Bool-cases (text_key.less k j)) [
      | inl before ↦ rw (insert, apart, before, stop_tenants, stop-create output (rest k) k) refl
      | inr behind ↦ rw (insert, apart, behind, stop_tenants, told, ih) refl
    ]
  ]

  stop_tenants-insert :
      (rest : Text → Rest) (output : OutputBase) (k : Text) (m : Dict Text (TenantHandle x))
      {m' : Dict Text (TenantHandle x)}
      → stop_tenants x rest output m ≡ ok (some m')
      → stop_tenants x rest output (insert k (Tenant.create x k) m) ≡ fault null_pointer
  unfolding stop_tenants insert
  stop_tenants-insert rest output k [] h = rw (stop_tenants, stop-create output (rest k) k) refl
  stop_tenants-insert rest output k ((j, t) ∷ m) h =
      let (joined, stops, h₁) = >>=-eq-ok (Tenant.stop x output (rest j) t) _ h in
      elim (Option-cases joined) [
        | inl waits ↦ let none_yet = rw waits at h₁ in absurd (cc)
        | inr (t', returns) ↦
            let (others, later, h₂) =
              >>=-eq-ok (stop_tenants x rest output m) _ (rw returns at h₁) in
            elim (Option-cases others) [
              | inl waits ↦ let none_yet = rw waits at h₂ in absurd (cc)
              | inr (ts', all_return) ↦
                  let told = rw returns at stops in
                  let ih = stop_tenants-insert rest output k m (rw all_return at later) in
                  insert-fault rest output k j t m told ih
            ]
      ]

  -- An instance whose other tenants can all be stopped, and which is shut down right after it was told
  -- of a new tenant, stops at a null pointer: the tenant's thread has not yet made the controller
  -- that `stop` is called on.
  pub on_new_tenant-stop_tenants :
      (rest : Text → Rest) (h h' : HvBench x) (tenant : Text) {m : Dict Text (TenantHandle x)}
      → on_new_tenant x tenant h ≡ ok h'
      → stop_tenants x rest h.output h.tenants ≡ ok (some m)
      → stop_tenants x rest h'.output h'.tenants ≡ fault null_pointer
  unfolding on_new_tenant
  on_new_tenant-stop_tenants rest h h' tenant e others = elim (Bool-cases (has tenant h.tenants)) [
    | inl known ↦ let failed = rw (known, on_new_tenant) at e in absurd (cc)
    | inr new ↦
        let last = rw (new, on_new_tenant) at e in
        let made : record h { tenants = insert tenant (Tenant.create x tenant) h.tenants } ≡ h' =
          ground arith in
        subst (λ k. stop_tenants x rest k.output k.tenants ≡ fault null_pointer) made
          (stop_tenants-insert rest h.output tenant h.tenants others)
  ]

  -- A change of a known tenant's weights or rate that comes in before the tenant's thread has made
  -- the generator stops at a null pointer. The tenant's id and the component have no `/`.
  pub on_change_tenant_conf_early :
      (h : HvBench x) (action : Action) (id component key value : Text) (others : KvPairs)
      (t : TenantHandle x)
      → Without b'/' id
      → Without b'/' component
      → IsGeneratorPart x component
      → lookup id h.tenants ≡ some t
      → t.msg_generator ≡ none
      → on_change_tenant_conf x
          (record {
            action = action;
            pairs = (tenant_key x id (component ++ b'/' ∷ key), value) ∷ others;
          })
          h
        ≡ fault null_pointer
  unfolding forward Tenant.on_change update_generator
  on_change_tenant_conf_early h action id component key value others t w v part known missing =
      on_change_tenant_conf-forward x h action id (component ++ b'/' ∷ key) value others w
      ∙ rw (
        known,
        forward,
        front_split x component key v,
        substr_behind component key,
        part,
        missing,
      )
