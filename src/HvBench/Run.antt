-- ===== src/HvBench/Run.antt =====
-- `HVBench::run` (src/HVBench.cpp): the three watches deliver changes and the threads of the tenants
-- go on, in any order, until the shutdown; then the tenants and the nodes are stopped. A node is
-- here as it was started: what its switch does meanwhile is in Node.Life.
use hvbench.Base.{
  ◌≡◌, refl, ap, true, List, [], ◌∷◌, Option, none, some, Text, text_key, All, if◌then◌else◌,
}
use hvbench.Base.Result.{Result, ok, fault, reply_exception, bad_lexical_cast, out_of_range, ◌>>=◌}
use hvbench.Base.Dict.{Dict, keys, lookup, insert}
use hvbench.Etcd.{Server}
use hvbench.Msg.Messages.{Time}
use hvbench.Stats.Output.{OutputBase}
use hvbench.Controller.Defs.{Externals}
use hvbench.Tenant.{TenantHandle, Rest, Step}
use hvbench.Tenant
use hvbench.Tenant.Stopping.{HasReturned, CanStop, stop-HasReturned}
use hvbench.Node.Client.{stopped}
use hvbench.Node.Client
use hvbench.Node.Life.{Out, stop_conn}
use hvbench.Node.Life
use hvbench.HvBench.{
  HvBench, NodeHandle, stop_nodes, Reply, on_change, on_change_tenant_conf, on_change_global,
  stop_tenants,
}

-- A call of one of the three handlers, with etcd as it is then.
pub data Change : Type 0 where
  instance_change : Server → Reply → Change
  tenant_change : Reply → Change
  global_change : Server → Reply → Change

-- What happens while the main thread waits.
pub data Happening : Type 0 where
  watched : Change → Happening
  tenant_steps : Text → Step → Happening

-- A node whose loop has ended and whose connecting thread is cancelled.
abbrev pub HasEnded : Text × NodeHandle → Type 0
HasEnded e = (e.1.node.base.loop ≡ stopped) × (e.1.node.base.cancelled ≡ true)

-- A node whose switch has no connection that is deleted, as `stop_conn` needs it.
abbrev pub CanClose : Text × NodeHandle → Type 0
CanClose e = (out : List Out) × (stop_conn e.1.node ≡ ok out)

-- A run of `stop_nodes` that ends, with the same nodes, all ended.
abbrev EndsAll : Dict Text NodeHandle → Type 0
EndsAll m =
    (m' : Dict Text NodeHandle) × (outs : List (Text × List Out)) × (stop_nodes m ≡ ok (m', outs))
    × (keys m' ≡ keys m)
    × All HasEnded m'

stop_nodes-HasEnded : (m : Dict Text NodeHandle) → All CanClose m → EndsAll m
unfolding stop_nodes Life.stop Client.stop
stop_nodes-HasEnded [] h = ([], [], refl, refl, tt)
stop_nodes-HasEnded ((k, n) ∷ ns) ((out, closes), h) =
    let (ns', outs, done, same, all) = stop_nodes-HasEnded ns h in
    (
      (k, record n { node = record n.node { base = Client.stop n.node.base } }) ∷ ns',
      (k, out) ∷ outs,
      rw (closes, done) refl,
      ap (◌∷◌ k) same,
      ((refl, refl), all),
    )

module _ (x : Externals) where
  unfoldable pub handle_change : Change → HvBench x → Result (HvBench x)
  unfolding on_change on_change_tenant_conf on_change_global
  handle_change (instance_change etcd r) h = on_change x etcd r h
  handle_change (tenant_change r) h = on_change_tenant_conf x r h
  handle_change (global_change etcd r) h = on_change_global x etcd r h

  -- A watch catches an exception of its handler and goes on; the handlers throw before they write.
  unfoldable pub caught : HvBench x → Result (HvBench x) → Result (HvBench x)
  caught h (fault reply_exception) = ok h
  caught h (fault bad_lexical_cast) = ok h
  caught h (fault out_of_range) = ok h
  caught h (fault e) = fault e
  caught h (ok h') = ok h'

  -- A step of a tenant's thread, or a callback for its controller.
  unfoldable pub step_tenant : Text → Step → HvBench x → Result (HvBench x)
  unfolding Tenant.advance
  step_tenant id s h = elim (lookup id h.tenants) [
    | none ↦ ok h
    | some t ↦ do
      t' ← Tenant.advance x h.output s t
      ok (record h { tenants = insert id t' h.tenants })
  ]

  unfoldable pub happen : Happening → HvBench x → Result (HvBench x)
  unfolding handle_change caught step_tenant
  happen (watched c) h = caught h (handle_change c h)
  happen (tenant_steps id s) h = step_tenant id s h

  -- The wait of `run`, over what happens before the main thread looks: `none` while it goes on
  -- waiting.
  unfoldable pub wait : List Happening → HvBench x → Result (Option (HvBench x))
  unfolding happen
  wait [] h = ok (if h.shutdown then some h else none)
  wait (c ∷ cs) h = do h' ← happen c h; wait cs h'

  -- `run()`: the instance when it returns, and what its switches do at the end; `none` while it waits
  -- for the shutdown or for the thread of a tenant.
  unfoldable pub run :
      (Text → Rest)
      → List Happening
      → HvBench x
      → Result (Option (HvBench x × List (Text × List Out)))
  unfolding wait stop_tenants stop_nodes
  run rest cs h = do
    ended ← wait cs h
    elim ended [
      | none ↦ ok none
      | some h' ↦ do
        joined ← stop_tenants x rest h'.output h'.tenants
        elim joined [
          | none ↦ ok none
          | some ts ↦ do
            (ns, out) ← stop_nodes h'.nodes
            ok (some (record h' { tenants = ts; nodes = ns }, out))
        ]
    ]

  -- A tenant whose controller is made and whose thread has returned.
  abbrev pub IsStopped : Text × TenantHandle x → Type 0
  IsStopped e = HasReturned x e.1

  -- A run of `stop_tenants` that ends, with the same tenants, all stopped.
  abbrev StopsAll :
      Dict Text (TenantHandle x) → Result (Option (Dict Text (TenantHandle x))) → Type 0
  StopsAll m r =
      (m' : Dict Text (TenantHandle x)) × (r ≡ ok (some m')) × (keys m' ≡ keys m) × All IsStopped m'

  stop_tenants-StopsAll :
      (T : Time) (rest : Text → Rest) (output : OutputBase) (m : Dict Text (TenantHandle x))
      → All (λ e. CanStop x T output (rest e.0) e.1) m
      → StopsAll m (stop_tenants x rest output m)
  unfolding stop_tenants
  stop_tenants-StopsAll T rest output [] h = ([], refl, refl, tt)
  stop_tenants-StopsAll T rest output ((k, t) ∷ ts) h =
      let (ts', later, same, all) = stop_tenants-StopsAll T rest output ts h.1 in
      let (t', told, returned) = stop-HasReturned x T output (rest k) t h.0 in
      ((k, t') ∷ ts', rw (told, later), ap (◌∷◌ k) same, (returned, all))

  -- Once an instance has been shut down, and each of its tenants is in the controller's `run` with a
  -- sound state, has its switch, and gets three turns at a time when its message at hand is due, and
  -- no node has a connection that is deleted, `run` returns, with the same tenants and the same nodes: the thread of every tenant has
  -- returned, and of every node the event loop has ended and the thread that connects is cancelled.
  pub run-IsStopped :
      (T : Time) (rest : Text → Rest) (cs : List Happening) (h h' : HvBench x)
      → wait cs h ≡ ok (some h')
      → All (λ e. CanStop x T h'.output (rest e.0) e.1) h'.tenants
      → All CanClose h'.nodes
      → (last : HvBench x) × (out : List (Text × List Out)) × (run rest cs h
          ≡ ok (some (last, out)))
        × (keys last.tenants ≡ keys h'.tenants)
        × All IsStopped last.tenants
        × (keys last.nodes ≡ keys h'.nodes)
        × All HasEnded last.nodes
  unfolding run
  run-IsStopped T rest cs h h' e all can =
      let (ts, done, same, told) = stop_tenants-StopsAll T rest h'.output h'.tenants all in
      let (ns, outs, closed, same', ended) = stop_nodes-HasEnded h'.nodes can in
      (
        record h' { tenants = ts; nodes = ns },
        outs,
        rw (e, done, closed) refl,
        same,
        told,
        same',
        ended,
      )
