-- ===== src/Node/Client.antt =====
-- `BaseOFClient` (src/base/BaseOFClient.h and .cpp): the thread that connects to the hypervisor, and
-- the event loop of libfluid that calls back. What a system call gives is an argument.
use hvbench.Base.{Bool, true, false, Text, if◌then◌else◌}
use hvbench.Base.Int.{ℤ}

-- Where the thread `try_connect` stands.
pub data ConnThread : Type 0 where
  not_started : ConnThread
  -- at `socket(...)`
  creating : ConnThread
  -- at `connect(...)`, with the retries behind a sleep
  connecting : ConnThread
  -- at `new BaseOFConnection(...)`
  connected : ConnThread
  ended : ConnThread

-- The thread of `evloop->run()`.
pub data Loop : Type 0 where
  idle running stopped : Loop

pub record BaseClient : Type 0 where
  pub address : Text
  pub port : ℤ
  pub blocking : Bool
  pub conn_thread : ConnThread
  -- whether `pthread_cancel(conn_t)` has been called
  pub cancelled : Bool
  pub loop : Loop

-- The constructor.
unfoldable pub create : Text → ℤ → BaseClient
create address port = record {
  address = address;
  port = port;
  blocking = false;
  conn_thread = not_started;
  cancelled = false;
  loop = idle;
}

-- `start_conn()`.
unfoldable pub start_conn : BaseClient → BaseClient
start_conn c = record c { conn_thread = creating; cancelled = false }

-- `start(block)`; the loop runs in a thread of its own, or in the caller's if that is blocked.
unfoldable pub start : Bool → BaseClient → BaseClient
unfolding start_conn
start block c = record (start_conn (record c { blocking = block })) { loop = running }

-- `stop()`: the loop has ended when the thread is joined. Without a thread of its own, the loop
-- ends in the caller of `start`.
unfoldable pub stop : BaseClient → BaseClient
stop c = record c { cancelled = true; loop = stopped }

-- One step of `try_connect`: the client after it, and whether it makes a connection. `done` says
-- whether the system call succeeds. A call of `pthread_cancel` takes effect at `connect` and `sleep`.
unfoldable pub try_connect : ConnThread → Bool → BaseClient → BaseClient × Bool
try_connect creating done c = (record c { conn_thread = if done then connecting else ended }, false)
try_connect connecting done c = (
  record c { conn_thread = if c.cancelled then ended else if done then connected else connecting },
  false,
)
try_connect connected done c = (record c { conn_thread = ended }, true)
try_connect _ done c = (c, false)
