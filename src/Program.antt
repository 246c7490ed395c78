-- ===== src/Program.antt =====
-- `main` (src/main.cpp): the command line, which TCLAP reads, and the run of one instance.
use hvbench.Base.{ℕ, ◌≡◌, ◌⊎◌, true, List, [], ◌∷◌, none, some, Text, codes, text_key, All}
use hvbench.Base.Int.{pos}
use hvbench.Base.Result.{Result, ok, ◌>>=◌}
use hvbench.Etcd.{Server}
use hvbench.Stats.Output
use hvbench.Stats.Output.{OutputBase}
use hvbench.Node.Life.{Out}
use hvbench.Controller.Defs.{Externals}
use hvbench.Tenant.{Rest}
use hvbench.HvBench.{HvBench}
use hvbench.HvBench
use hvbench.HvBench.Run.{Happening, IsStopped}
use hvbench.HvBench.Run
use hvbench.HvBench.Changes.{Starts, Refuses}

-- The arguments of the command line.
pub record Options : Type 0 where
  pub etcd : Text
  pub kafka : Text
  pub port : ℕ
  pub id : ℕ

-- The default values.
unfoldable pub defaults : Options
defaults = record { etcd = codes "127.0.0.1"; kafka = codes "127.0.0.1"; port = 2379; id = 1 }

-- What `cmd.parse` does with the defaults and the command line: it gives values, throws, or ends the
-- program with a code.
pub data Parsed : Type 0 where
  values : Options → Parsed
  throws : Parsed
  exits : ℕ → Parsed

-- What the program has seen and done: the reason why it ended, or that it still waits.
pub data Ended : Type 0 where
  -- TCLAP ends the program with a code
  by_parser : ℕ → Ended
  -- `return 1` and `return 0`
  not_started finished : Ended
  still_running : Ended

-- `rest` is what goes on around each tenant while its thread is joined.
module _ (x : Externals) (network : Text → ℕ → Server) (rest : Text → Rest) where
  -- The output to Kafka.
  unfoldable pub make_output : Options → OutputBase
  unfolding Output.create
  make_output o =
      let broker = x.boost.format (codes "%s:9092") (o.kafka ∷ []) in
      let name = x.boost.format (codes "hvbench_%s") (x.boost.print (pos o.id) ∷ []) in
      (Output.create broker name).base

  -- What follows the command line, with what happens until the main thread has looked.
  unfoldable pub start : Options → List Happening → Result Ended
  unfolding HvBench.create Run.run make_output
  start o cs = do
    hv ← HvBench.create x (network o.etcd o.port) (make_output o) o.id
    elim hv [
      | none ↦ ok not_started
      | some h ↦ do
        ended ← Run.run x rest cs h
        ok (elim ended [ none ↦ still_running | some _ ↦ finished ])
    ]

  -- `main`, where `cmd.parse` is given the defaults. The handler of an exception prints it and goes on:
  -- the texts and the port are then what they were made as, and `id` is not set to anything.
  unfoldable pub main :
      (Options → List Text → Parsed) → List Text → ℕ → List Happening → Result Ended
  unfolding start defaults
  main parse args id cs = elim (parse defaults args) [
    | values o ↦ start o cs
    | throws ↦ start (record { etcd = []; kafka = []; port = 0; id = id }) cs
    | exits n ↦ ok (by_parser n)
  ]

  -- The reason of each end.
  abbrev pub Explains : Options → List Happening → Ended → Type 0
  Explains o cs (by_parser n) = ⊥
  Explains o cs not_started = Refuses x (network o.etcd o.port)
  Explains o cs finished =
      (h : HvBench x) × (last : HvBench x) × (out : List (Text × List Out)) × Starts x
        (network o.etcd o.port) o.id h
      × (Run.run x rest cs h ≡ ok (some (last, out)))
      × (last.shutdown ≡ true)
      × All (IsStopped x) last.tenants
  Explains o cs still_running =
      (h : HvBench x) × Starts x (network o.etcd o.port) o.id h × (Run.run x rest cs h ≡ ok none)

  -- The arguments that the program goes on with.
  abbrev pub GoesOn : (Options → List Text → Parsed) → List Text → ℕ → Options → Type 0
  GoesOn parse args id o =
      (parse defaults args ≡ values o)
      ⊎ ((parse defaults args ≡ throws) × (o ≡ record { etcd = []; kafka = []; port = 0; id = id }))

  abbrev pub HasReason :
      (Options → List Text → Parsed) → List Text → ℕ → List Happening → Ended → Type 0
  HasReason parse args id cs (by_parser n) = parse defaults args ≡ exits n
  HasReason parse args id cs r = (o : Options) × GoesOn parse args id o × Explains o cs r
