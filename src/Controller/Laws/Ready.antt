-- ===== src/Controller/Laws/Ready.antt =====
-- What a running tenant needs, so that no step of it fails.
use hvbench.Base.{◌≡◌, ◌⊎◌, Bool, false, List, Option, some}
use hvbench.Base.Result.{Result, ok}
use hvbench.Msg.Laws.{IsRequest}
use hvbench.Conn.{Conn}
use hvbench.Stats.Latency.Named.{Named}
use hvbench.Generator.Dispatch.Valid.{IsValid}
use hvbench.Controller.Defs.{Externals}
use hvbench.Controller.Run.{Tenant, Phase, awaiting_switch, waiting, recording, Effect}

abbrev pub HasConn : Option Conn → Type 0
HasConn conn = (k : Conn) × (conn ≡ some k)

-- What the thread needs where it stands, of `switch_up` and `conn`: a connection, unless it waits
-- for the switch, and a message at hand is a request.
abbrev pub IsReady : Phase → Bool → Option Conn → Type 0
IsReady awaiting_switch up conn = (up ≡ false) ⊎ HasConn conn
IsReady (waiting m) up conn = HasConn conn × IsRequest m.of_msg.type
IsReady (recording m late now) up conn = HasConn conn × IsRequest m.of_msg.type
IsReady _ up conn = HasConn conn

module _ (x : Externals) where
  -- The invariant of a tenant that runs.
  pub record IsSound (t : Tenant x) : Type 0 where
    pub generator : IsValid x.random t.generator
    pub ready : IsReady t.phase t.controller.switch_up t.controller.conn
    pub named : Named x.queue x.acc t.controller.latency_stats

  -- A step that ends well.
  abbrev pub Succeeds : Result (Tenant x × List Effect) → Type 0
  Succeeds r = (t : Tenant x) × (fx : List Effect) × (r ≡ ok (t, fx)) × IsSound t
