-- ===== src/Tenant.antt =====
-- `class Tenant` (src/Tenant.h and .cpp): the configuration of a tenant, its thread, whose last part
-- is `Controller.Run`, and the stop with the join of that thread.
pub mod Setup
pub mod Stopping
use hvbench.Base.{
  ℕ, ◌+◌, leb, ◌||◌, Bool, true, false, List, [], ◌∷◌, Option, none, some, Text, codes, text_eqb,
  text_key, length, drop, if◌then◌else◌,
}
use hvbench.Base.Result.{
  Result, ok, fault, null_pointer, past_the_end, out_of_range, bad_lexical_cast, require, or_fault,
  ◌>>=◌, ◌>>◌,
}
use hvbench.Base.Dict.{lookup}
use hvbench.Conf.{c_etcd_ptenants_conf}
use hvbench.Etcd.{Server, etcd_get}
use hvbench.Msg.{
  Ofpt, ofpt_key, str, feature_request, echo_request, stats_request_port, stats_request_flow,
  packet_out_udp, flow_mod,
}
use hvbench.Msg.Messages.{Time}
use hvbench.Stats.Output.{OutputBase}
use hvbench.Generator.Constant
use hvbench.Generator.Tenant as TenantGenerator
use hvbench.Generator.Dispatch.{Generator, constant, tenant, update}
use hvbench.Controller.Defs.{Externals, Controller, ConnEvent}
use hvbench.Controller.Defs
use hvbench.Controller.Run
use hvbench.Controller.Run.{Phase, awaiting_switch, finished, Reading, Event}

-- `s.substr(pos)`, which throws behind the end.
unfoldable pub substr : Text → ℕ → Result Text
substr s pos = do require (leb pos (length s)) out_of_range; ok (drop pos s)

-- `path.front()`.
unfoldable pub front : List Text → Result Text
front [] = fault past_the_end
front (p ∷ ps) = ok p

-- `path.back()`.
unfoldable pub back : List Text → Result Text
back [] = fault past_the_end
back (p ∷ []) = ok p
back (p ∷ q ∷ ps) = back (q ∷ ps)

-- Where `_run` stands: before it sets `hvcontroller_`, before it sets `msg_generator_`, or in the
-- controller's `run`, at a phase and with the second of the last report.
pub data Thread : Type 0 where
  before_controller before_generator : Thread
  in_run : Phase → ℕ → Thread

-- The members, and where the thread stands; it sets the two pointers after it has started.
pub record TenantHandle (x : Externals) : Type 0 where
  pub id : Text
  pub hvcontroller : Option (Controller x)
  pub msg_generator : Option (Generator x.random)
  pub thread : Thread

-- A step of the tenant's thread, or a callback of libfluid for its controller.
pub data Step : Type 0 where
  makes_controller : Server → Time → Step
  makes_generator : Server → ℕ → ℕ → Step
  turns : Reading → Step
  connection : ℕ → ConnEvent → Step
  message : ℕ → Text → Time → Bool → Step

-- What goes on around one tenant while the main thread joins its thread: steps up to the end of the
-- setup, and then events of the controller's run.
abbrev pub Rest : Type 0
Rest = List Step × List Event

-- Whether the thread has returned.
unfoldable pub has_ended : Thread → Bool
has_ended (in_run finished l) = true
has_ended _ = false

module _ (x : Externals) where
  open x use {boost, random}

  unfoldable pub create : Text → TenantHandle x
  create id = record {
    id = id;
    hvcontroller = none;
    msg_generator = none;
    thread = before_controller;
  }

  -- `msg_generator_->update(key, value)`.
  unfoldable pub update_generator : Text → Text → TenantHandle x → Result (TenantHandle x)
  update_generator key value t = do
    g ← or_fault t.msg_generator null_pointer
    g' ← update random boost key value g
    ok (record t { msg_generator = some g' })

  -- `onChange(key, value)`.
  unfoldable pub on_change : Text → Text → TenantHandle x → Result (TenantHandle x)
  unfolding substr front
  on_change key value t = do
    component ← front (boost.split key)
    conf_key ← substr key (length component + 1)
    if text_eqb component (codes "generator_conf") || text_eqb component (codes "weights")
        then update_generator conf_key value t
        else ok t

  -- The kinds of a mixed generator, in the order of their weights.
  abbrev pub msg_types : List Ofpt
  msg_types =
      feature_request ∷ echo_request ∷ stats_request_port ∷ stats_request_flow ∷ packet_out_udp
      ∷ flow_mod ∷ []

  -- The loop that reads the weights.
  unfoldable pub read_weights : Server → Text → List Ofpt → Result (List x.random.Float)
  unfolding etcd_get lookup
  read_weights etcd basep [] = ok []
  read_weights etcd basep (e ∷ es) = do
    name ← or_fault (lookup e str) out_of_range
    text ← etcd_get boost etcd basep (boost.format (codes "weights/%s") (name ∷ [])) false
    weight ← or_fault (random.cast_float text) bad_lexical_cast
    rest ← read_weights etcd basep es
    ok (weight ∷ rest)

  -- The generator that `_run` makes; `old` and `seed` are for the constructor of a mixed one.
  unfoldable pub make_generator : Server → ℕ → ℕ → Text → Text → Result (Generator x.random)
  unfolding etcd_get
  make_generator etcd old seed basep id = do
    generator_t ← etcd_get boost etcd basep (codes "generator") false
    let conf = boost.format (codes "%s/%s/generator_conf") (c_etcd_ptenants_conf ∷ id ∷ [])
    if text_eqb generator_t (codes "constant")
        then (do g ← Constant.create boost etcd conf; ok (constant g))
        else (do
          weights ← read_weights etcd basep msg_types
          rate_text ← etcd_get boost etcd basep (codes "generator_conf/avg_rate") false
          avg_rate ← or_fault (boost.cast_u32 rate_text) bad_lexical_cast
          g ← TenantGenerator.create random old seed avg_rate msg_types weights
          ok (tenant g))

  -- `_run()`, up to the start of the controller.
  unfoldable pub set_controller : Server → Time → TenantHandle x → Result (TenantHandle x)
  unfolding etcd_get
  set_controller etcd now t = do
    let basep = boost.format (codes "%s/%s") (c_etcd_ptenants_conf ∷ t.id ∷ [])
    listen ← etcd_get boost etcd basep (codes "setup/listen") false
    port_text ← etcd_get boost etcd basep (codes "setup/port") false
    port ← or_fault (boost.cast_u32 port_text) bad_lexical_cast
    ok (record t { hvcontroller = some (Defs.create x now); thread = before_generator })

  -- The rest of `_run()`, up to the call of `hvcontroller_->run`.
  unfoldable pub set_generator : Server → ℕ → ℕ → TenantHandle x → Result (TenantHandle x)
  set_generator etcd old seed t = do
    let basep = boost.format (codes "%s/%s") (c_etcd_ptenants_conf ∷ t.id ∷ [])
    g ← make_generator etcd old seed basep t.id
    ok (record t { msg_generator = some g; thread = in_run awaiting_switch 0 })

  -- Both parts with nothing in between.
  unfoldable pub run_setup : Server → ℕ → ℕ → Time → TenantHandle x → Result (TenantHandle x)
  unfolding set_controller set_generator
  run_setup etcd old seed now t = do t' ← set_controller etcd now t; set_generator etcd old seed t'

  abbrev assemble :
      Text
      → OutputBase
      → Thread
      → Option (Controller x)
      → Option (Generator x.random)
      → Option (Run.Tenant x)
  assemble id output (in_run p l) (some c) (some g) = some (record {
    id = id;
    controller = c;
    generator = g;
    output = output;
    phase = p;
    last_stat_time = l;
  })
  assemble id output _ _ _ = none

  -- The tenant as the controller's `run` sees it, once that is called.
  unfoldable pub as_running : OutputBase → TenantHandle x → Option (Run.Tenant x)
  as_running output t = assemble t.id output t.thread t.hvcontroller t.msg_generator

  -- The members after a part of that run.
  unfoldable pub store : Run.Tenant x → TenantHandle x → TenantHandle x
  store r t = record t {
    hvcontroller = some r.controller;
    msg_generator = some r.generator;
    thread = in_run r.phase r.last_stat_time;
  }

  -- One step; one that is not the thread's next changes nothing.
  unfoldable pub advance : OutputBase → Step → TenantHandle x → Result (TenantHandle x)
  unfolding set_controller set_generator as_running store
  advance output (makes_controller etcd now) t = elim t.thread [
    | before_controller ↦ set_controller etcd now t
    | _ ↦ ok t
  ]
  advance output (makes_generator etcd old seed) t = elim t.thread [
    | before_generator ↦ set_generator etcd old seed t
    | _ ↦ ok t
  ]
  advance output (turns rd) t = elim (as_running output t) [
    | none ↦ ok t
    | some r ↦ do (r', fx) ← Run.step x r (Run.turns rd); ok (store r' t)
  ]
  advance output (connection id e) t = elim t.hvcontroller [
    | none ↦ ok t
    | some c ↦ ok (record t { hvcontroller = some (Defs.connection_callback x id e c) })
  ]
  advance output (message type msg now is_alive) t = elim t.hvcontroller [
    | none ↦ ok t
    | some c ↦ do
      (c', bytes) ← Defs.message_callback x type msg now is_alive c
      ok (record t { hvcontroller = some c' })
  ]

  unfoldable pub advance_all : OutputBase → List Step → TenantHandle x → Result (TenantHandle x)
  unfolding advance
  advance_all output [] t = ok t
  advance_all output (s ∷ ss) t = do t' ← advance output s t; advance_all output ss t'

  -- The rest of a join, from the controller's `run` on.
  unfoldable pub join_run :
      List Event → TenantHandle x → Option (Run.Tenant x) → Result (Option (TenantHandle x))
  unfolding store has_ended
  join_run es t none = ok none
  join_run es t (some r) = do
    (r', fx) ← Run.run x es r
    let t' = store r' t
    ok (if has_ended t'.thread then some t' else none)

  -- The join of the thread, over what goes on around it: `none` while it waits.
  unfoldable pub join : OutputBase → Rest → TenantHandle x → Result (Option (TenantHandle x))
  unfolding advance_all as_running join_run
  join output (ss, es) t = do t₁ ← advance_all output ss t; join_run es t₁ (as_running output t₁)

  -- `stop()`: the controller is told to stop, and the thread is joined.
  unfoldable pub stop : OutputBase → Rest → TenantHandle x → Result (Option (TenantHandle x))
  unfolding join
  stop output rest t = do
    c ← or_fault t.hvcontroller null_pointer
    join output rest (record t { hvcontroller = some (Defs.stop x c) })
