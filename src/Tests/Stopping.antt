-- ===== src/Tests/Stopping.antt =====
-- A tenant that can be stopped, for the examples.
use hvbench.Base.{refl, List, [], ◌∷◌, arith, codes, text_key}
use hvbench.Base.Int.{pos}
use hvbench.Base.Dict.{lookup}
use hvbench.Msg.{ofpt_eqb, ofpt_key, str}
use hvbench.Msg.Laws.{contains}
use hvbench.Stats.Output.{OutputBase}
use hvbench.Controller.Run.{Reading, waiting, Event, turns}
use hvbench.Controller.Laws.Ready.{IsSound}
use hvbench.Tenant.{as_running}
use hvbench.Tenant.Stopping.{CanStop}
use hvbench.Tests.Libraries.{externals_example as x}
use hvbench.Tests.Inputs.{due, tenant_in, early, handle}

pub sound : IsSound x (tenant_in (waiting due))
unfolding contains ofpt_eqb str lookup
sound = record {
  generator = tt;
  ready = ((_, refl), refl);
  named = (((_, refl), ((_, refl), ((_, refl), tt))), tt);
}

abbrev pub at_nine : Reading
at_nine = record early { now = 9000; send_now = 9000 }

abbrev pub test_output : OutputBase
test_output = record { study_id = codes "test"; run_id = pos 1 }

-- Three turns at a time when the message at hand is due.
abbrev pub three : List Event
three = turns at_nine ∷ turns at_nine ∷ turns at_nine ∷ []

pub can_stop : CanStop x 9000 test_output ([], three) handle
unfolding as_running
can_stop = record {
  events = three;
  around = refl;
  running = tenant_in (waiting due);
  runs = refl;
  sound = sound;
  up = refl;
  due = omega arith;
  accepted = (tt, (tt, (tt, tt)));
  after = (omega arith, (omega arith, (omega arith, tt)));
  enough = omega arith;
}
