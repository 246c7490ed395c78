-- ===== src/HvBench/Changes.antt =====
-- How an instance starts, and what a new entry below its path does.
use mathlib.Core.Path.{subst}
use mathlib.Core.List.{append_assoc}
use hvbench.Base.{
  ℕ, ◌==◌, ==_iff, ◌≡◌, refl, ◌≢◌, ◌⊎◌, inl, inr, false, Bool-cases, Option-cases, List, [], ◌∷◌,
  ◌++◌, Option, none, some, arith, Text, codes, text_eqb, text_eqb_iff, text_key, All-append,
  if◌then◌else◌,
}
use hvbench.Base.Result.{ok, fault, assertion, >>=-eq-ok}
use hvbench.Base.Dict.{has, insert}
use hvbench.External.Boost.{Without}
use hvbench.Conf.{c_etcd_phvbench, c_etcd_pglobals, conf_api_version}
use hvbench.Etcd
use hvbench.Etcd.{KvPairs, Server}
use hvbench.Stats.Output.{OutputBase, update_study}
use hvbench.Controller.Defs.{Externals}
use hvbench.Tenant.{back}
use hvbench.Tenant
use hvbench.HvBench.{
  HvBench, set, shutdown_key, first, read_study, create, on_new_tenant, on_entry, on_change,
}

module _ (x : Externals) where
  open x use {boost}

  back_cons : (p : Text) (ps : List Text) {s : Text} → back ps ≡ ok s → back (p ∷ ps) ≡ ok s
  unfolding back
  back_cons p [] h = absurd (cc)
  back_cons p (q ∷ ps) h = h

  -- The last piece of a path, behind all its slashes: `pre` is what was read since the last one.
  back_split :
      (a pre s : Text)
      → Without b'/' pre
      → Without b'/' s
      → back (boost.split (pre ++ (a ++ b'/' ∷ s))) ≡ ok s
  unfolding back
  back_split [] pre s wp ws = rw (boost.split_slash pre s wp, boost.split_last s ws)
  back_split (c ∷ a) pre s wp ws = elim (Bool-cases (c == b'/')) [
    | inl slash ↦
        rw ((==_iff c b'/').0 slash, boost.split_slash pre (a ++ b'/' ∷ s) wp)
          (back_cons pre (boost.split (a ++ b'/' ∷ s)) (back_split a [] s tt ws))
    | inr other ↦
        let still : Without b'/' (pre ++ c ∷ []) =
          All-append (λ y. y ≢ b'/') pre (c ∷ []) wp (ground arith, tt) in
        rw append_assoc at (back_split a (pre ++ c ∷ []) s still ws)
  ]

  -- A new entry of the kind `tenant` below any path, but for the shutdown key, makes a tenant with
  -- the last piece of the key as its id. A tenant that is known already fails an assertion.
  pub on_change-tenant :
      (etcd : Server) (path name : Text) (others : KvPairs) (h : HvBench x)
      → Without b'/' name
      → text_eqb (path ++ b'/' ∷ name) (shutdown_key x h) ≡ false
      → on_change x etcd
          (record { action = set; pairs = (path ++ b'/' ∷ name, codes "tenant") ∷ others })
          h
        ≡ (if has name h.tenants
            then fault assertion
            else ok (record h { tenants = insert name (Tenant.create x name) h.tenants }))
  unfolding on_change first on_entry on_new_tenant text_eqb
  on_change-tenant etcd path name others h w other = elim (Bool-cases (has name h.tenants)) [
    | inl known ↦ rw (other, back_split path [] name tt w, known)
    | inr new ↦ rw (other, back_split path [] name tt w, new)
  ]

  -- When an instance starts: etcd holds the configuration, for this version, with a study and a run
  -- that can be read, and the instance has no tenants and no nodes and writes reports for that study.
  abbrev pub Starts : Server → ℕ → HvBench x → Type 0
  Starts etcd id h =
      (etcd c_etcd_phvbench ≢ none)
      × (Etcd.get etcd (boost.format (codes "%s/api_version") (c_etcd_pglobals ∷ []))
          ≡ ok conf_api_version)
      × (read_study x etcd ≡ ok (h.output.study_id, h.output.run_id))
      × (h.instance_id ≡ id)
      × (h.tenants ≡ [])
      × (h.nodes ≡ [])
      × (h.shutdown ≡ false)

  -- When it does not: no configuration, or one for another version.
  abbrev pub Refuses : Server → Type 0
  Refuses etcd =
      (etcd c_etcd_phvbench ≡ none)
      ⊎ ((v : Text) × (Etcd.get etcd (boost.format (codes "%s/api_version") (c_etcd_pglobals ∷ []))
            ≡ ok v)
          × (v ≢ conf_api_version))

  abbrev pub Outcome : Server → ℕ → Option (HvBench x) → Type 0
  Outcome etcd id none = Refuses etcd
  Outcome etcd id (some h) = Starts etcd id h

  -- Where `create` ends without an exception, it gives an instance or a null pointer for these
  -- reasons.
  pub create-Outcome :
      (etcd : Server) (output : OutputBase) (id : ℕ) {r : Option (HvBench x)}
      → create x etcd output id ≡ ok r
      → Outcome etcd id r
  unfolding create update_study
  create-Outcome etcd output id {r} h = elim (Option-cases (etcd c_etcd_phvbench)) [
    | inl missing ↦ let same : none ≡ r = ground arith in subst (Outcome etcd id) same (inl missing)
    | inr (dir, found) ↦
        let (v, version, h₁) =
          >>=-eq-ok (Etcd.get etcd (boost.format (codes "%s/api_version") (c_etcd_pglobals ∷ []))) _
            (rw (found, create) at h) in
        elim (Bool-cases (text_eqb v conf_api_version)) [
          | inl right ↦
              let ((study_id, run_id), read, last) =
                >>=-eq-ok (read_study x etcd) _ (rw right at h₁) in
              let same : some (record {
                instance_id = id;
                tenants = [];
                nodes = [];
                shutdown = false;
                output = update_study study_id run_id output;
              })
                  ≡ r =
                ground arith in
              subst (Outcome etcd id) same (
                rw found (cc),
                rw (← (text_eqb_iff v conf_api_version).0 right) version,
                read,
                refl,
                refl,
                refl,
                refl,
              )
          | inr wrong ↦
              let last = rw wrong at h₁ in
              let same : none ≡ r = ground arith in
              subst (Outcome etcd id) same
                (inr (v, version, λ e. let right = (text_eqb_iff v conf_api_version).1 e in (cc)))
        ]
  ]
