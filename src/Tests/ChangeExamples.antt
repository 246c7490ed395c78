-- ===== src/Tests/ChangeExamples.antt =====
-- The theorems on an instance and on its reports at concrete inputs.
use hvbench.Base.{
  List, All, ◌++◌, true, ◌≡◌, refl, false, [], ◌∷◌, some, none, Text, arith, codes, text_eqb,
  text_key, if◌then◌else◌,
}
use hvbench.Base.Int.{pos, to_i32}
use hvbench.Base.Result.{ok, fault, assertion}
use hvbench.Base.Dict.{keys, Dict, has, insert, lookup, get_or}
use hvbench.Conf.{conf_api_version}
use hvbench.Etcd.{Server, get}
use hvbench.Generator.Tenant as TenantGenerator
use hvbench.Generator.Dispatch
use hvbench.Stats.Output.{OutputBase, update_study, write}
use hvbench.Stats.Output.Laws.{Names, write-update_study}
use hvbench.Tenant
use hvbench.Tenant.{Rest, in_run, makes_controller, makes_generator}
use hvbench.Controller.Run as Controller
use hvbench.Controller.Run.{fetching, finished, turns}
use hvbench.HvBench.{HvBench, set, shutdown_key, create, read_study, on_change}
use hvbench.HvBench.Changes.{Starts, create-Outcome, on_change-tenant}
use hvbench.HvBench.{first}
use hvbench.HvBench.Run
use hvbench.HvBench.Run.{
  instance_change, Happening, watched, tenant_steps, happen, handle_change, wait, IsStopped,
  HasEnded, run-IsStopped,
}
use hvbench.Node.Life.{Out}
use hvbench.Node.Life
use hvbench.HvBench.Keeping.{run-Keeps}
use hvbench.Program
use hvbench.Controller.Defs
use hvbench.Controller.Defs.{event_established}
use hvbench.Tests.Libraries.{externals_example as x, boost_example, read_u32, print_int, fmt}
use hvbench.Tests.Stopping.{three, at_nine, can_stop}
use hvbench.Tests.Inputs.{instance_1, handle, controller}

on_change-tenant_example :
    on_change x
      (λ path. none)
      (record { action = set; pairs = (codes "/hvbench/instances/1/t2", codes "tenant") ∷ [] })
      instance_1
    ≡ (if has (codes "t2") instance_1.tenants
        then fault assertion
        else ok (record instance_1 {
          tenants = insert (codes "t2") (Tenant.create x (codes "t2")) instance_1.tenants;
        }))
unfolding shutdown_key text_eqb fmt print_int
on_change-tenant_example =
    on_change-tenant x (λ path. none) (codes "/hvbench/instances/1") (codes "t2") [] instance_1
      (omega arith) refl

-- A configuration of this version, where every other key holds the number ten.
abbrev configured : Server
configured key = some (
    (key, if text_eqb key (codes "/hvbench/globals/api_version") then conf_api_version else 10 ∷ [])
    ∷ [])

abbrev output : OutputBase
output = record { study_id = codes "test"; run_id = pos 1 }

abbrev made : HvBench x
made = record {
  instance_id = 3;
  tenants = [];
  nodes = [];
  shutdown = false;
  output = record { study_id = 10 ∷ []; run_id = pos 10 };
}

create-Outcome_example : Starts x configured 3 made
unfolding create read_study get text_eqb fmt read_u32 lookup get_or to_i32
create-Outcome_example = create-Outcome x configured output 3 {r = some made} refl

write-update_study_example :
    (meta : Dict Text Text) × ((write boost_example
        (λ pairs. [])
        (update_study (codes "s") (pos 2) output)
        (codes "t1")
        (record { statistics = (codes "tx_bytes", 7) ∷ []; meta = [] })).value
      ≡ [])
    × Names boost_example (λ pairs. []) (codes "t1") (codes "s") (pos 2) meta
write-update_study_example =
    write-update_study boost_example (λ pairs. []) output (codes "t1") (codes "s") (pos 2)
      (record { statistics = (codes "tx_bytes", 7) ∷ []; meta = [] })

abbrev shut_down : Happening
shut_down = watched (
    instance_change (λ path. none)
      (record {
        action = set;
        pairs = (codes "/hvbench/instances/" ++ 1 ∷ codes "/shutdown", []) ∷ [];
      }))

-- The instance of the tenant `t1`, with a switch that has been started.
abbrev both : HvBench x
both = record instance_1 {
  nodes =
      (
        codes "n1",
        record {
          id = codes "n1";
          node = Life.start false (Life.create (codes "10.0.0.1") (pos 6633));
          hv_dp = 5;
        },
      )
      ∷ [];
}

run-IsStopped_example :
    (last : HvBench x) × (out : List (Text × List Out)) × (Run.run x
        (λ k. ([], three))
        (shut_down ∷ [])
        both
      ≡ ok (some (last, out)))
    × (keys last.tenants ≡ codes "t1" ∷ [])
    × All (IsStopped x) last.tenants
    × (keys last.nodes ≡ codes "n1" ∷ [])
    × All HasEnded last.nodes
unfolding wait happen handle_change on_change first shutdown_key text_eqb fmt print_int
    Life.stop_conn Life.start Life.create
run-IsStopped_example =
    run-IsStopped x 9000 (λ k. ([], three)) (shut_down ∷ []) both (record both { shutdown = true })
      refl (can_stop, tt) (([], refl), tt)

-- The same instance with a tenant that is about to take its next message, and after its shutdown.
abbrev running : HvBench x
running = record instance_1 {
  tenants = (codes "t1", record handle { thread = in_run fetching 7 }) ∷ [];
}

abbrev told : HvBench x
told = record instance_1 {
  tenants =
      (
        codes "t1",
        record handle {
          hvcontroller = some (record controller { running = false });
          thread = in_run finished 7;
        },
      )
      ∷ [];
  shutdown = true;
}

run-Keeps_example : (has (codes "t1") told.tenants ≡ true) × All (IsStopped x) told.tenants
unfolding has lookup text_eqb Run.run wait happen handle_change on_change first shutdown_key fmt
    print_int Defs.stop Tenant.stop Controller.run Controller.step Controller.turn
run-Keeps_example =
    run-Keeps x (λ k. ([], turns at_nine ∷ [])) (shut_down ∷ []) running (codes "t1") {last = told}
      {out = []} refl refl

-- A program that is started with no arguments, told of a tenant, whose controller is then made, and
-- shut down. While the tenant's thread is joined, its generator is made, its switch comes, and it
-- takes the turns up to its end.
abbrev plain : Program.Options → List Text → Program.Parsed
plain o args = Program.values o

abbrev with_tenant : List Happening
with_tenant =
    watched (
      instance_change (λ path. none)
        (record { action = set; pairs = (codes "/hvbench/instances/1/t2", codes "tenant") ∷ [] }))
    ∷ tenant_steps (codes "t2") (makes_controller configured 0)
    ∷ shut_down
    ∷ []

abbrev to_the_end : Text → Rest
to_the_end k = (makes_generator configured 0 3 ∷ Tenant.connection 4 event_established ∷ [], three)
