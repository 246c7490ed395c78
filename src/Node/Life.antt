-- ===== src/Node/Life.antt =====
-- `HVBenchNode` (src/HVBenchNode.h and .cpp) from its start to its stop: the callback for its
-- connection, and the events that libfluid's loop and the connecting thread give it.
pub mod Legal
pub mod Links
pub mod Sound
pub mod Closed
pub mod Opening
use hvbench.Base.{
  ℕ, ◌/◌, ◌%◌, Bool, true, false, List, [], ◌∷◌, ◌++◌, map, Option, none, some, Text, get_elem?,
  set, if◌then◌else◌,
}
use hvbench.Base.Int.{ℤ}
use hvbench.Base.Result.{Result, ok, fault, null_pointer, dangling, or_fault, ◌>>=◌}
use hvbench.External.Fluid.{Fluid, Settings}
use hvbench.Controller.Defs.{ConnEvent, event_started}
use hvbench.Node.Switch.{
  OfConnection, Effect, sends, closes, deletes, word16, base_message_callback, send_echo,
}
use hvbench.Node.Client
use hvbench.Node.Client.{BaseClient, try_connect}

-- `BaseOFConnection::Event`.
pub data BaseEvent : Type 0 where
  event_up event_down event_closed : BaseEvent

-- What libfluid has said of a connection so far.
pub data Stage : Type 0 where
  fresh up down closed : Stage

-- A `BaseOFConnection`, with the `OFConnection` that manages it.
pub record Link : Type 0 where
  pub stage : Stage
  pub manager : Option OfConnection
  pub is_deleted : Bool

-- `new BaseOFConnection(…)`.
abbrev new_link : Link
new_link = record { stage = fresh; manager = none; is_deleted = false }

-- `conn` names the connection that its `OFConnection` manages; `links` are all that were made.
pub record HvBenchNode : Type 0 where
  pub base : BaseClient
  pub conn : Option ℕ
  pub links : List Link

-- An effect on a connection, or a call of `connection_callback` with the member `conn`.
pub data Out : Type 0 where
  on : ℕ → Effect → Out
  notifies : Option ℕ → ConnEvent → Out

-- The constructor.
unfoldable pub create : Text → ℤ → HvBenchNode
unfolding Client.create
create address port = record { base = Client.create address port; conn = none; links = [] }

unfoldable pub start : Bool → HvBenchNode → HvBenchNode
unfolding Client.start
start block n = record n { base = Client.start block n.base }

-- A connection that is there.
unfoldable pub live : ℕ → HvBenchNode → Result Link
live a n = do
  l ← or_fault (get_elem? n.links a) dangling
  if l.is_deleted then fault dangling else ok l

-- `stop_conn()`: `close` goes through the `OFConnection` to the connection, which must be there.
unfoldable pub stop_conn : HvBenchNode → Result (List Out)
unfolding live
stop_conn n = elim n.conn [ none ↦ ok [] | some a ↦ do l ← live a n; ok (on a closes ∷ []) ]

-- `stop()`.
unfoldable pub stop : HvBenchNode → Result (HvBenchNode × List Out)
unfolding stop_conn Client.stop
stop n = do out ← stop_conn n; ok (record n { base = Client.stop n.base }, out)

abbrev put : ℕ → Link → HvBenchNode → HvBenchNode
put a l n = record n { links = set n.links a l }

-- A thread or libfluid's loop takes a step: the thread that connects, a change of a connection, a
-- message, the timer of the liveness check, and the two halves of `stop`, between which the loop
-- goes on.
pub data Event : Type 0 where
  connects : Bool → Event
  changes : ℕ → BaseEvent → Event
  receives : ℕ → Text → Event
  checks : ℕ → Event
  stops_conn : Event
  stops_client : Event

module _ (f : Fluid) (ofsc : Settings) (datapath_id : ℕ) where
  -- The hello of version 1, its xid as a little-endian machine has it in memory.
  abbrev pub hello_msg : Text
  hello_msg =
      1 ∷ f.ofpt_hello ∷ word16 8
      ++ f.hello_xid % 256
        ∷ f.hello_xid / 256 % 256
        ∷ f.hello_xid / 65536 % 256
        ∷ f.hello_xid / 16777216 % 256
        ∷ []

  -- `base_connection_callback(c, event_type)`; `made` is a new `OFConnection`.
  unfoldable pub base_connection_callback :
      OfConnection → ℕ → BaseEvent → Link → HvBenchNode → HvBenchNode × List Out
  base_connection_callback made a event_closed l n =
      (put a (record l { stage = closed; is_deleted = true }) n, on a deletes ∷ [])
  base_connection_callback made a event_up l n = (
    record (put a (record l { stage = up; manager = some made }) n) { conn = some a },
    (if ofsc.handshake then on a (sends hello_msg) ∷ [] else [])
        ++ notifies (some a) event_started ∷ [],
  )
  base_connection_callback made a event_down l n =
      (put a (record l { stage = down }) n, notifies n.conn ConnEvent.event_closed ∷ [])

  -- One event. A connection without a manager is taken for a null pointer at once.
  unfoldable pub step : OfConnection → Event → HvBenchNode → Result (HvBenchNode × List Out)
  unfolding live base_connection_callback stop_conn Client.stop try_connect
  step made (connects done) n =
      let (b, makes) = try_connect n.base.conn_thread done n.base in
      ok (record n { base = b; links = if makes then n.links ++ new_link ∷ [] else n.links }, [])
  step made (changes a e) n = do l ← live a n; ok (base_connection_callback made a e l n)
  step made (receives a msg) n = do
    l ← live a n
    cc ← or_fault l.manager null_pointer
    (cc', fx) ← base_message_callback f ofsc datapath_id msg cc
    ok (put a (record l { manager = some cc' }) n, map (on a) fx)
  step made (checks a) n = do
    l ← live a n
    cc ← or_fault l.manager null_pointer
    let (cc', fx) = send_echo f ofsc datapath_id cc
    ok (put a (record l { manager = some cc' }) n, map (on a) fx)
  step made stops_conn n = do out ← stop_conn n; ok (n, out)
  step made stops_client n = ok (record n { base = Client.stop n.base }, [])

  -- A history of events, with all that it does.
  unfoldable pub run : OfConnection → List Event → HvBenchNode → Result (HvBenchNode × List Out)
  unfolding step
  run made [] n = ok (n, [])
  run made (e ∷ es) n = do
    (n', out) ← step made e n
    (n'', rest) ← run made es n'
    ok (n'', out ++ rest)
