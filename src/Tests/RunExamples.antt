-- ===== src/Tests/RunExamples.antt =====
-- The theorems on whole runs and on generators at concrete inputs.
use hvbench.Base.{List, inl, ◌≡◌, refl, false, [], ◌∷◌, some, arith, codes, text_eqb, text_key}
use hvbench.Base.Int.{pos}
use hvbench.Base.Result.{ok}
use hvbench.Base.Dict.{lookup, get_or}
use hvbench.Etcd.{Server, etcd_get}
use hvbench.Msg.{ofpt_eqb, ofpt_key, str, echo_request, flow_mod}
use hvbench.Msg.Laws.{contains}
use hvbench.Generator.Tenant.{TenantGenerator}
use hvbench.Generator.Tenant as TenantGenerator
use hvbench.Generator.Tenant.Valid as TenantValid
use hvbench.Stats.Output.{OutputBase}
use hvbench.Generator.Dispatch.{Generator, tenant}
use hvbench.Controller.Run.{
  Phase, Reading, waiting, finished, awaiting_switch, Effect, run, turns, stops, updates,
}
use hvbench.Controller.Run
use hvbench.Controller.Laws.Ready.{Succeeds, IsSound}
use hvbench.Controller.Laws.Progress.{run_total}
use hvbench.Controller.Laws.Stopping.{run_stopped}
use hvbench.Controller.Defs
use hvbench.Tenant
use hvbench.Tenant.{TenantHandle, in_run, run_setup, read_weights, make_generator, as_running}
use hvbench.Tenant.Setup.{run_setup-run}
use hvbench.Tests.Libraries.{externals_example as x, fluid_example, random_example, read_u32, fmt}
use hvbench.Tests.Stopping.{sound, at_nine}
use hvbench.Tests.Inputs.{due, controller, tenant_in, early}

run_total_example : Succeeds x (
    run x
      (turns early ∷ updates (codes "avg_rate") (10 ∷ []) ∷ stops ∷ [])
      (tenant_in (waiting due)))
unfolding read_u32 text_eqb
run_total_example =
    run_total x (turns early ∷ updates (codes "avg_rate") (10 ∷ []) ∷ stops ∷ [])
      (tenant_in (waiting due)) (tt, (inl (refl, (10, refl, omega arith)), (tt, tt))) sound

-- The same tenant after `stop`.
abbrev stopped : Run.Tenant x
stopped = record (tenant_in (waiting due)) { controller = record controller { running = false } }

stopped-IsSound : IsSound x stopped
unfolding contains ofpt_eqb str lookup
stopped-IsSound = record {
  generator = tt;
  ready = ((_, refl), refl);
  named = (((_, refl), ((_, refl), ((_, refl), tt))), tt);
}

run_stopped_example :
    (t : Run.Tenant x) × (fx : List Effect) × (run x
        (turns at_nine ∷ turns at_nine ∷ turns at_nine ∷ [])
        stopped
      ≡ ok (t, fx))
    × (t.phase ≡ finished)
run_stopped_example =
    run_stopped x 9000 (turns at_nine ∷ turns at_nine ∷ turns at_nine ∷ []) stopped stopped-IsSound
      (record { stopped = refl; up = refl; due = omega arith }) (tt, (tt, (tt, tt)))
      (omega arith, (omega arith, (omega arith, tt))) (omega arith)

abbrev output : OutputBase
output = record { study_id = codes "test"; run_id = pos 1 }

-- Every key holds the number ten.
abbrev tens : Server
tens key = some ((key, 10 ∷ []) ∷ [])

-- What the thread of the tenant `t1` comes to, as the instance and as the controller's `run` see it.
abbrev mixed : Generator random_example
mixed = tenant (
    TenantGenerator.with_rate random_example 0 3 10 (Tenant.msg_types x)
      (10 ∷ 10 ∷ 10 ∷ 10 ∷ 10 ∷ 10 ∷ []))

abbrev set_up : TenantHandle x
set_up = record {
  id = codes "t1";
  hvcontroller = some (Defs.create x 0);
  msg_generator = some mixed;
  thread = in_run awaiting_switch 0;
}

run_setup-run_example :
    (r : Run.Tenant x) × (as_running x output set_up ≡ some r)
    × Succeeds x (run x (turns early ∷ stops ∷ []) r)
unfolding run_setup make_generator read_weights etcd_get read_u32 text_eqb str ofpt_eqb lookup
    get_or Tenant.create TenantGenerator.create fmt
run_setup-run_example =
    run_setup-run x tens 0 3 0 output (Tenant.create x (codes "t1")) {t' = set_up}
      (turns early ∷ stops ∷ []) refl (tt, (tt, tt))

-- A mix of two kinds.
abbrev mix : TenantGenerator random_example
mix = TenantGenerator.with_rate random_example 0 1 10 (echo_request ∷ flow_mod ∷ []) (3 ∷ 7 ∷ [])

mix-IsValid : TenantValid.IsValid random_example mix
unfolding contains ofpt_eqb TenantGenerator.create
mix-IsValid =
    TenantValid.create-IsValid random_example 0 1 10 (echo_request ∷ flow_mod ∷ []) (3 ∷ 7 ∷ [])
      {g = mix} refl (refl, (refl, tt)) refl (cc)

next-IsValid_example :
    TenantValid.Draws random_example mix (TenantGenerator.next random_example fluid_example mix)
next-IsValid_example = TenantValid.next-IsValid random_example fluid_example mix mix-IsValid
