-- ===== src/HvBench/Routing.antt =====
-- How a change of the configuration finds the object that it is for.
use native.Mathlib.Numerals.{add-one}
use hvbench.Base.{
  false, inl, inr, Option-cases, if◌then◌else◌, ℕ, suc, ◌+◌, ◌≡◌, refl, ◌∙◌, true, ◌||◌, leb, [],
  ◌∷◌, ◌++◌, some, arith, Text, codes, text_key, text_eqb, length, drop, length-append,
}
use hvbench.Base.Result.{ok, fault, out_of_range}
use hvbench.Base.Dict.{lookup, insert, has}
use hvbench.External.Boost.{Without}
use hvbench.Conf.{c_etcd_ptenants_conf}
use hvbench.Etcd.{KvPairs}
use hvbench.Generator.Dispatch.{Generator, update}
use hvbench.Controller.Defs.{Externals}
use hvbench.Tenant.{TenantHandle, substr, front, update_generator}
use hvbench.Tenant
use hvbench.HvBench.{HvBench, Action, forward, on_change_tenant_conf}

drop_behind : (a s : Text) (c : ℕ) → drop (suc (length a)) (a ++ c ∷ s) ≡ s
drop_behind [] s c = refl
drop_behind (x ∷ a) s c = drop_behind a s c

-- The part of a text behind the first `/`.
pub substr_behind : (a s : Text) → substr (a ++ b'/' ∷ s) (length a + 1) ≡ ok s
unfolding substr
substr_behind a s =
    let fits : leb (suc (length a)) (length (a ++ b'/' ∷ s)) ≡ true =
      ground (arith, length-append a (b'/' ∷ s)) in
    rw add-one (rw (fits, drop_behind a s b'/'))

module _ (x : Externals) where
  pub front_split : (a s : Text) → Without b'/' a → front (x.boost.split (a ++ b'/' ∷ s)) ≡ ok a
  unfolding front
  front_split a s h = rw (x.boost.split_slash a s h)

  -- The key of a tenant's entry in etcd: the base path, the tenant, and the rest.
  abbrev pub tenant_key : Text → Text → Text
  tenant_key id rest = c_etcd_ptenants_conf ++ b'/' ∷ (id ++ b'/' ∷ rest)

  -- A changed entry below the path of a tenant, whose id has no `/`, is handed on under that id, with
  -- the rest of the key and the value.
  pub on_change_tenant_conf-forward :
      (h : HvBench x) (action : Action) (id rest value : Text) (others : KvPairs)
      → Without b'/' id
      → on_change_tenant_conf x
          (record { action = action; pairs = (tenant_key id rest, value) ∷ others })
          h
        ≡ forward x id rest value h
  unfolding on_change_tenant_conf
  on_change_tenant_conf-forward h action id rest value others w = rw (
    substr_behind c_etcd_ptenants_conf (id ++ b'/' ∷ rest),
    front_split id rest w,
    substr_behind id rest,
  )

  -- A component of a tenant's configuration that goes to the generator.
  abbrev pub IsGeneratorPart : Text → Type 0
  IsGeneratorPart c = (text_eqb c (codes "generator_conf") || text_eqb c (codes "weights")) ≡ true

  -- A new weight or rate, written below the path of a known tenant whose generator is made and takes
  -- the update, updates the generator of that tenant, and all else stays as it is. The tenant's id
  -- and the component have no `/`.
  pub on_change_tenant_conf-update :
      (h : HvBench x) (action : Action) (id component key value : Text) (others : KvPairs)
      (t : TenantHandle x) (g g' : Generator x.random)
      → Without b'/' id
      → Without b'/' component
      → IsGeneratorPart component
      → lookup id h.tenants ≡ some t
      → t.msg_generator ≡ some g
      → update x.random x.boost key value g ≡ ok g'
      → on_change_tenant_conf x
          (record {
            action = action;
            pairs = (tenant_key id (component ++ b'/' ∷ key), value) ∷ others;
          })
          h
        ≡ ok (record h { tenants = insert id (record t { msg_generator = some g' }) h.tenants })
  unfolding forward Tenant.on_change update_generator
  on_change_tenant_conf-update h action id component key value others t g g' w v part known has
        new =
      on_change_tenant_conf-forward h action id (component ++ b'/' ∷ key) value others w
      ∙ rw
          (known, forward, front_split component key v, substr_behind component key, part, has, new)

  substr_past : (a : Text) → substr a (length a + 1) ≡ fault out_of_range
  unfolding substr
  substr_past a =
      let short : leb (length a + 1) (length a) ≡ false = ground arith in rw (short, substr)

  -- The handler of a changed entry throws out_of_range where the key has too few pieces behind the base
  -- path: one right below the path, whatever its tenant, and one right below a known tenant, such as
  -- its `generator`. One right below a tenant that is not known changes nothing. The pieces have no
  -- `/`.
  pub on_change_tenant_conf_short :
      (h : HvBench x) (action : Action) (id component value : Text) (others : KvPairs)
      → Without b'/' id
      → Without b'/' component
      → (on_change_tenant_conf x
            (record {
              action = action;
              pairs = (c_etcd_ptenants_conf ++ b'/' ∷ id, value) ∷ others;
            })
            h
          ≡ fault out_of_range)
        × (on_change_tenant_conf x
              (record { action = action; pairs = (tenant_key id component, value) ∷ others })
              h
            ≡ (if has id h.tenants then fault out_of_range else ok h))
  unfolding on_change_tenant_conf forward Tenant.on_change front has
  on_change_tenant_conf_short h action id component value others w v = (
    rw (substr_behind c_etcd_ptenants_conf id, x.boost.split_last id w, substr_past id),
    on_change_tenant_conf-forward h action id component value others w
        ∙ elim (Option-cases (lookup id h.tenants)) [
          | inl new ↦ rw (forward, has, new)
          | inr (t, known) ↦ rw (
            forward,
            has,
            known,
            Tenant.on_change,
            x.boost.split_last component v,
            substr_past component,
          )
        ],
  )
