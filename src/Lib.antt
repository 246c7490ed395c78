-- ===== src/Lib.antt =====
-- hvbench loads a network hypervisor: each instance plays tenants, whose controllers send OpenFlow
-- requests to the hypervisor at a given rate and measure the response times, and switches below
-- it. The configuration is in etcd; the figures go to Kafka once a second.
--
-- Parts and files (the program is under src/):
--   * Base: names passed on from the library, integers of the machine and ℤ over the native
--     numbers, texts as lists of bytes, results with faults (a null pointer, an exception), maps
--     as association lists in the order of their keys.
--   * External: what the program calls of other projects, as records of operations and laws: boost
--     (format, split, lexical_cast), the concurrent queue, the accumulators, the random generators
--     and libfluid. Everything takes them as parameters; Tests.Libraries fills each one.
--   * Msg (globals.h, of/messages.hpp): `Types` holds the enum OFPT and its tables, `Messages`
--     the message classes and their factories.
--   * Conf (conf.h) and Etcd (libs/etcd/etcd_helper.hpp): keys; a server is a function from keys
--     to values.
--   * Generator (generators/): `Abstract` is the base class, `Constant` and `Tenant` the two
--     subclasses, `Dispatch` the virtual calls. The `Valid` modules say when a generator never fails.
--   * Stats (statistics/): `Latency` is OFLatencyStats, `Collector` the collector of a report,
--     `Output` OutputBase with KafkaOutput; `Figures` is about the keys of a report.
--   * Conn (of/ofconnwrapper.hpp): the connection to a switch.
--   * Controller (HVBenchController.h and .cpp): `Defs` has the members and the callbacks of
--     libfluid's thread; `Run` cuts the sending thread `run` into turns. A history is a list of
--     events, each a turn, a callback, a call of `stop`, or a change of the generator or the output,
--     which the thread shares with the instance; so it is any interleaving of the threads at that
--     grain. A change for the generator is one step: the source takes no lock there, and a change that
--     falls into a call of `next` is a data race, which no history has. A turn is one test of the switch, the setup, one `next()`, one pass of the inner loop up
--     to the send, or what follows the send: a callback can fall between the send and its record.
--     `Laws` has a module for each subject: what is counted, the connection, that no step fails, the
--     end after `stop`, the requests that wait (`Waiting`, `Rising`, `Ordered`, `Order`) up to
--     their replies (`Measured`), and what a report says (`Report`).
--   * Tenant (Tenant.h and .cpp): its creation, what a change of the configuration does, the steps of
--     its thread, which makes the controller, then the generator, and then is in the controller's
--     `run`, and `stop` with the join of the thread. What goes on around a tenant while it is joined
--     is a parameter; tenants share only the output, so what one does while another is joined can
--     stand before the stop, in the history of the instance; a join that still waits is `none`. `Setup` is about the start of the thread,
--     `Stopping` about its end.
--   * Node: the simulated switch. `Switch` is the message callback and the liveness check of
--     HVBenchNode.h and .cpp, `Client` is BaseOFClient (base/BaseOFClient.h and .cpp) with the thread
--     that connects, and `Life` joins them with the connection callback, the start and the stop: a
--     history is a list of events of libfluid's loop, of the connecting thread and of the two halves
--     of `stop`. `Life.Legal` says which events there may be in a state: those that libfluid gives of a
--     connection that was made, in their order, while the loop runs, with messages of versions from 1
--     to 32, and `stop_conn` while no connection has been closed.
--   * HvBench (HVBench.h and .cpp, Node.cpp): one instance, with the handlers of its three watches
--     on etcd and the threads of its tenants. A watch (Watch::Run of libs/etcd/etcd.hpp) catches an
--     exception of its handler and goes on, until it has failed five times in a row, which is left
--     out. A change or a new tenant that comes while the tenants are stopped is left out too, but for
--     changes of the one that is joined. `Routing` is about how a change finds its tenant, `Startup` about changes that come
--     too early, `Changes` about the start of an instance and new tenants, `Run`
--     about its run up to the shutdown, `Growth` and `Keeping` about the tenants that it knows.
--   * Program (main.cpp): `main`. What TCLAP makes of the command line is a parameter.
--   * Tests: concrete libraries, inputs, and the theorems applied to them.
--
-- Bounds: xids, counters and samples are w-bit words with the wrap-around written out. Times are
-- nanoseconds, in ℕ; a difference of times is an integer. Only `OFLatencyStats::received` needs
-- fuel: each round takes an entry off the queue, so one more than the entries is enough.
-- What `_next_msg` of a mixed generator holds before the constructor adds to it is a parameter.
--
-- Doubles: `inter_arrival` divides in ℕ, which is proved to be what the source's division of doubles
-- and conversion give.
--
-- Not modelled: what is behind a system call or libfluid's event loop, locks within one step, output
-- to the console (PrinterOutput with it), destructors, the event classes of
-- of/controllerevents.hpp, which nothing uses, GeneratorContainer, which leaves `update` pure
-- virtual and is not used, the visitor interfaces, whose classes are abstract,
-- and the copies of other projects (concurrentqueue, libs/etcd/etcd.hpp, rapidjson, libkafka_asio).
pub mod Base
pub mod External
pub mod Msg
pub mod Conf
pub mod Etcd
pub mod Generator
pub mod Stats
pub mod Conn
pub mod Controller
pub mod Tenant
pub mod Node
pub mod HvBench
pub mod Program
pub mod Tests
