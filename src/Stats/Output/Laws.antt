-- ===== src/Stats/Output/Laws.antt =====
-- What a report says of where it comes from.
use hvbench.Base.{◌≡◌, refl, List, ◌++◌, some, map, Text, text_key, text_eqb, codes}
use hvbench.Base.Int.{ℤ, pos}
use hvbench.Base.Dict.{Dict, lookup, lookup-insert}
use hvbench.External.Boost.{Boost}
use hvbench.Stats.Collector.{Collector, add_meta, to_json}
use hvbench.Stats.Output.{OutputBase, update_study, write}

module _ (b : Boost) (write_json : List (Text × Text) → Text) where
  -- The tenant, study and run of a report's entries.
  abbrev pub Names : Text → Text → ℤ → Dict Text Text → Type 0
  Names tenant study_id run_id meta =
      (lookup (codes "tenant") meta ≡ some tenant)
      × (lookup (codes "study_id") meta ≡ some study_id)
      × (lookup (codes "run_id") meta ≡ some (b.print run_id))

  -- A report that is written after the study was changed holds all figures collected, and names the
  -- tenant, the new study and the new run, whatever the collector had noted under these keys.
  pub write-update_study :
      (o : OutputBase) (tenant study_id : Text) (run_id : ℤ) (col : Collector)
      → (meta : Dict Text Text) × ((write b write_json
            (update_study study_id run_id o)
            tenant
            col).value
          ≡ write_json (map (λ e. (e.0, b.print (pos e.1))) col.statistics ++ meta))
        × Names tenant study_id run_id meta
  unfolding write update_study add_meta to_json text_eqb
  write-update_study o tenant study_id run_id col =
      (_, refl, (simp (lookup-insert), simp (lookup-insert), simp (lookup-insert)))
