-- ===== src/Lib.antt =====
-- pi-threads is a daemon that supervises a pool of single-session worker processes (Pi in RPC
-- mode) and serves their threads to clients over local transports. This library models its core.
--
-- Parts, by file, with the source that each models:
--
-- - Base, Value: shared names; the values that the program reads from and writes to JSON.
-- - Protocol/Errors (src/errors.ts), Protocol/Events (src/protocol/events.ts), Protocol/Filters (the
--   filters of events.ts and of src/service/event-bus.ts), Protocol/Stream (src/protocol/stream.ts),
--   Protocol/TurnStream (src/protocol/turn-stream.ts, a machine over Protocol/Stream),
--   Protocol/JsonRpc (src/protocol/json-rpc.ts).
-- - EventBus (src/service/event-bus.ts): the class EventBus, as a machine with the stack of the calls
--   under way, since a listener may call the bus again before it returns.
-- - Worker (src/worker/worker-pool.ts): the interface PooledWorker and mapWorkerEvent.
-- - Worker/Output and Worker/Commands (src/worker/pi-rpc-worker.ts): the lines that a process writes,
--   as lists of code units, and the commands that it is sent.
-- - Pool (src/worker/worker-pool.ts): the class WorkerPool. Pool/State has its fields, Pool/Reserve
--   its reservations, Pool/Acquire the selection and the start of workers, Pool/Machine the way each
--   operation goes on after a wait, Pool/Inputs what reaches the pool from outside. The operations
--   that withLifecycle runs one after the other are cut at their awaits; `step` answers one input,
--   and between two steps of an operation any other input may come. Pool/Kept proves what no step can
--   break, and Pool/Bounds and Pool/Stopping apply it; Pool/Selection, Pool/Eviction and Pool/Crashes
--   are about single operations.
-- - Service (src/service/pi-threads-service.ts): the lists that the service answers with, and in
--   Service/Turns the reservations of turns and what events do to them. Service/Calls, Service/Send,
--   Service/Mutation and Service/Machine have threadStart, threadSend, threadAbort and
--   withSessionMutation, cut at their awaits and joined with the pool: `step` answers one input, and
--   calls, promises, events and what happens in the pool come in any order. Service/Exclusion proves
--   what no order can break.
--   Service/Threads has the lists of threads, Service/Messages those of entries and messages;
--   Service/Paging, Service/Overlay, Service/Order and Service/LastEntries
--   prove what they contain and in which order. Service/Settings has the choice of a model and the
--   settings of a worker, with src/worker/input-disposition.ts.
-- - Session (src/session/catalog.ts): Session/Entries and Session/Info read a session file,
--   Session/Catalog has the class PiSessionCatalog with its baselines, Session/Listing the directories
--   and resolveThread, and Session/Runs the catalog as a machine on a disk that others write too.
--   Session/Index and Session/Unchanged are about its runs, Session/Activity and Session/Described
--   about the files.
-- - Transport/Router (src/transport/json-rpc-router.ts): a connection and its subscriptions.
-- - Client/Socket (src/client/socket-client.ts): the class SocketClient, its requests cut at their awaits.
-- - Client/Sse (src/client/sse-reader.ts): readSse, with Transport/Sse (src/transport/sse.ts), which
--   writes what it reads. Client/Sse/Chunks proves that the chunks of a stream do not matter.
-- - Config (src/config.ts) and Security (src/security/auth.ts and src/security/tls.ts): the
--   configuration over its defaults with its checks, the settings of a client, and the checks of tokens,
--   origins and addresses. Config/Values has what the file holds, and Config/Usable ties it to the
--   options of the pool.
--
-- Times and sizes are natural numbers; the numbers of the configuration file may be negative or
-- have a fraction. A worker is named by the number in its id `worker_<n>`. The structured `data`
-- of an error is left out. No loop of the code needs fuel but that over the lines of a buffer,
-- which has fuel for one line more than the buffer has units (Worker/Output/Chunks, and
-- Client/Sse/Within for the reader of events); the other loops run over lists or are cut at a
-- wait. A client that follows the cursors of pages has fuel for one page more than there are
-- threads (Service/Paging).
--
-- Not modelled: the processes themselves, sockets, files and the HTTP server, which are input and
-- output; the command line; of the clients, the one for HTTP and DaemonClient. Of the service, the
-- commands that set a model or a name are one wait of a call, and the updates of the catalog and the
-- table of methods are left out.
mod Base
pub mod Value
pub mod Protocol
pub mod Worker
pub mod Pool
pub mod EventBus
pub mod Service
pub mod Session
pub mod Config
pub mod Security
pub mod Client
pub mod Transport
