-- ===== src/HvBench.antt =====
-- `class HVBench` (src/HVBench.h and .cpp): one instance of the benchmark, and its three watches on
-- the configuration. A reply of etcd is what `GetAction` and `GetAll` give; the watches run one
-- after another, and each call of a handler is one step.
pub mod Routing
pub mod Startup
pub mod Changes
pub mod Run
pub mod Growth
pub mod Keeping
use hvbench.Base.{
  ℕ, suc, ◌+◌, Bool, true, false, not, List, [], ◌∷◌, ◌++◌, Option, none, some, Text, codes,
  text_eqb, text_key, length, if◌then◌else◌,
}
use hvbench.Base.Int.{ℤ, pos, to_u32, to_i32}
use hvbench.Base.Result.{
  Result, ok, fault, null_pointer, past_the_end, assertion, bad_lexical_cast, require, or_fault,
  ◌>>=◌, ◌>>◌,
}
use hvbench.Base.Dict.{Dict, lookup, insert, has}
use hvbench.Conf.{
  c_etcd_phvbench, c_etcd_pglobals, c_etcd_ptenants_conf, c_etcd_pnodes_conf, conf_api_version,
}
use hvbench.Etcd
use hvbench.Etcd.{KvPairs, Server, etcd_get}
use hvbench.Stats.Output.{OutputBase, update_study}
use hvbench.Controller.Defs.{Externals}
use hvbench.Node.Life.{HvBenchNode, Out}
use hvbench.Node.Life
use hvbench.Tenant.{TenantHandle, Rest, substr, front, back}
use hvbench.Tenant

-- `etcd::Action`, as far as it is told apart.
pub data Action : Type 0 where
  set update other : Action

pub record Reply : Type 0 where
  pub action : Action
  -- In the order of the keys.
  pub pairs : KvPairs

-- `class Node`, with its `HVBenchNode` and the datapath that it was made for.
pub record NodeHandle : Type 0 where
  pub id : Text
  pub node : HvBenchNode
  pub hv_dp : ℕ

pub record HvBench (x : Externals) : Type 0 where
  pub instance_id : ℕ
  pub tenants : Dict Text (TenantHandle x)
  pub nodes : Dict Text NodeHandle
  pub shutdown : Bool
  pub output : OutputBase

-- `*(pairs.begin())`.
unfoldable pub first : KvPairs → Result (Text × Text)
first [] = fault past_the_end
first (p ∷ ps) = ok p

module _ (x : Externals) where
  open x use {boost}

  -- `study_id` and `run_id` below the globals, for `update_study`.
  unfoldable pub read_study : Server → Result (Text × ℤ)
  unfolding Etcd.get
  read_study etcd = do
    study_id ← Etcd.get etcd (boost.format (codes "%s/study_id") (c_etcd_pglobals ∷ []))
    run_text ← Etcd.get etcd (boost.format (codes "%s/run_id") (c_etcd_pglobals ∷ []))
    run_id ← or_fault (boost.cast_u32 run_text) bad_lexical_cast
    ok (study_id, to_i32 run_id)

  -- `create(output, …, instance_id)`: a null pointer where etcd holds no configuration or one for
  -- another version. The directory that is added, and an exception of that, change nothing here.
  unfoldable pub create : Server → OutputBase → ℕ → Result (Option (HvBench x))
  unfolding read_study update_study
  create etcd output instance_id = elim (etcd c_etcd_phvbench) [
    | none ↦ ok none
    | some _ ↦ do
      api_version ← Etcd.get etcd (boost.format (codes "%s/api_version") (c_etcd_pglobals ∷ []))
      if text_eqb api_version conf_api_version
          then (do
            (study_id, run_id) ← read_study etcd
            ok (
                some (record {
                  instance_id = instance_id;
                  tenants = [];
                  nodes = [];
                  shutdown = false;
                  output = update_study study_id run_id output;
                })))
          else ok none
  ]

  -- `Node::create` and `Node::start`.
  unfoldable pub start_node : Server → Text → Result NodeHandle
  unfolding etcd_get Life.start Life.create
  start_node etcd id = do
    let basep = boost.format (codes "%s/%s") (c_etcd_pnodes_conf ∷ id ∷ [])
    hv_ip ← etcd_get boost etcd basep (codes "setup/hv_ip") false
    port_text ← etcd_get boost etcd basep (codes "setup/hv_port") false
    hv_port ← or_fault (boost.cast_u32 port_text) bad_lexical_cast
    dp_text ← etcd_get boost etcd basep (codes "setup/datapath_id") false
    hv_dp ← or_fault (boost.cast_u64 dp_text) bad_lexical_cast
    let node = Life.start false (Life.create hv_ip (to_i32 hv_port))
    ok (record { id = id; node = node; hv_dp = hv_dp })

  unfoldable pub on_new_node : Server → Text → HvBench x → Result (HvBench x)
  unfolding start_node
  on_new_node etcd node h = do
    require (not (has node h.nodes)) assertion
    n ← start_node etcd node
    ok (record h { nodes = insert node n h.nodes })

  -- `_onNewTenant`; the tenant's thread runs from here on.
  unfoldable pub on_new_tenant : Text → HvBench x → Result (HvBench x)
  unfolding Tenant.create
  on_new_tenant tenant h = do
    require (not (has tenant h.tenants)) assertion
    ok (record h { tenants = insert tenant (Tenant.create x tenant) h.tenants })

  -- The part of `_onChange` for a key that is not the shutdown.
  unfoldable pub on_entry : Server → Text → Text → HvBench x → Result (HvBench x)
  on_entry etcd name kind h =
      if text_eqb kind (codes "tenant")
      then on_new_tenant name h
      else if text_eqb kind (codes "node")
      then on_new_node etcd name h
      else if text_eqb kind (codes "ignore")
      then ok h
      else fault assertion

  -- The key that shuts the instance down.
  unfoldable pub shutdown_key : HvBench x → Text
  shutdown_key h =
      boost.format (codes "%s/%d/shutdown") (c_etcd_phvbench ∷ boost.print (pos h.instance_id) ∷ [])

  -- `_onChange(reply)`.
  unfoldable pub on_change : Server → Reply → HvBench x → Result (HvBench x)
  unfolding first back shutdown_key
  on_change etcd reply h = elim reply.action [
    | set ↦ do
      (key, value) ← first reply.pairs
      if text_eqb key (shutdown_key h)
          then ok (record h { shutdown = true })
          else (do name ← back (boost.split key); on_entry etcd name value h)
    | _ ↦ ok h
  ]

  -- The end of `_onChangeTenantConf`: the change goes to the tenant, if it is known.
  unfoldable pub forward : Text → Text → Text → HvBench x → Result (HvBench x)
  forward tenant conf_key value h = elim (lookup tenant h.tenants) [
    | none ↦ ok h
    | some t ↦ do
      t' ← Tenant.on_change x conf_key value t
      ok (record h { tenants = insert tenant t' h.tenants })
  ]

  -- `_onChangeTenantConf(reply)`.
  unfoldable pub on_change_tenant_conf : Reply → HvBench x → Result (HvBench x)
  on_change_tenant_conf reply h = elim reply.pairs [
    | [] ↦ ok h
    | (key, value) ∷ _ ↦ do
      tenant_conf ← substr key (length c_etcd_ptenants_conf + 1)
      tenant ← front (boost.split tenant_conf)
      conf_key ← substr tenant_conf (length tenant + 1)
      forward tenant conf_key value h
  ]

  -- `_onChangeGlobal(reply)`.
  unfoldable pub on_change_global : Server → Reply → HvBench x → Result (HvBench x)
  unfolding read_study update_study
  on_change_global etcd reply h = elim reply.action [
    | update ↦ do
      (study_id, run_id) ← read_study etcd
      ok (record h { output = update_study study_id run_id h.output })
    | _ ↦ ok h
  ]

  -- The loop over the tenants at the end of `run`, with what goes on around each while its thread is
  -- joined: `none` while a join waits.
  unfoldable pub stop_tenants :
      (Text → Rest)
      → OutputBase
      → Dict Text (TenantHandle x)
      → Result (Option (Dict Text (TenantHandle x)))
  unfolding Tenant.stop
  stop_tenants rest output [] = ok (some [])
  stop_tenants rest output ((k, t) ∷ ts) = do
    joined ← Tenant.stop x output (rest k) t
    elim joined [
      | none ↦ ok none
      | some t' ↦ do
        others ← stop_tenants rest output ts
        ok (elim others [ none ↦ none | some ts' ↦ some ((k, t') ∷ ts') ])
    ]

-- `Node::stop` of each node at the end of `run`: the nodes after it, and what their switches do.
unfoldable pub stop_nodes :
    Dict Text NodeHandle → Result (Dict Text NodeHandle × List (Text × List Out))
unfolding Life.stop
stop_nodes [] = ok ([], [])
stop_nodes ((k, n) ∷ ns) = do
  (node, out) ← Life.stop n.node
  (ns', outs) ← stop_nodes ns
  ok ((k, record n { node = node }) ∷ ns', (k, out) ∷ outs)
