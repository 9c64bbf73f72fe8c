-- ===== src/Lib.antt =====
-- GFire: a server for background jobs. Clients enqueue jobs over HTTP, a store keeps them with
-- the history of their states, the workers of an engine take them from queues and run their
-- handlers, and background loops bring back scheduled jobs, abandoned jobs and recurring jobs.
--
-- Parts and files:
-- - Prelude: the shared names, with Go's int64 (Int), maps (Dict), texts (Text) and results (Result).
--   An `Error` is a sentinel of internal/storage/errors/errors.go.
-- - Job: internal/job/job.go, types.go and recurring.go, the records and the names of the states.
-- - Memory: internal/storage/memory/memory.go. `Store` is memory.Storage; every method is a function
--   from a store to its results and the next store, named as in Go in snake case (ApplyState is
--   apply_state), in a module for its section: Queues, States, Query, Registry, Scheduled,
--   Recurring, Locks, Maintenance. Calls has the methods that write as one type of calls, and the
--   runs of a store. The other modules are proofs: WellFormed and Calls/Safety (Methods, Passage) about
--   the consistency of the maps, Calls/Live about queues, Calls/Append about histories, Dispatch about
--   Dequeue, Transitions about ApplyState and DeleteJob, Due about GetDueScheduled, Orphans about
--   GetOrphanedJobs, Idempotency about EnqueueIdempotent, Exclusion about locks, Expiry about
--   RemoveExpired, Paired about what Requeue relies on. Moves has the transitions as one type of
--   calls.
-- - Middleware: internal/middleware/pipeline.go and recovery.go.
-- - Engine: internal/engine. Retry is retry.go, Config is config.go, Limits the counts of running
--   jobs of engine.go and the back-off of worker.go, Storage the part of storage.Storage that a worker
--   uses as operations with laws (the instance `memory` is the store of Memory), Finalize is
--   finalizeSuccess and finalizeFailure of engine.go, Worker is processTicket of worker.go and
--   continuations.go, Coordinator is coordinator.go with tickScheduler, and Recurring is recurring.go.
-- - Api: internal/api. Api has the requests and replies, Jobs the handlers of handlers_jobs.go for one
--   job, Batch its handleBatchEnqueue, Recurring the handlers of handlers_recurring.go that write.
--   Answers and Retries are proofs about replies and about requests that are sent again.
-- - Config: internal/config/config.go, with the store that storage.go chooses and the address of load.go.
-- - Redis: internal/storage/redis. Redis has what the store uses of a server (`Redis`, with the
--   documented effect of each command on what the reads return) and the round trips of a call
--   (`World`), Keys is keys.go, Codec is codec.go with the conversions of the standard library as
--   a parameter, Jobs, Queues, States and Query are jobs.go and retry.go, Scheduled and Recurring are
--   scheduled.go, Servers, Locks and Maintenance are misc.go. The other modules are proofs: Apart about
--   keys, Laws about pipelines, RoundTrip about the codec, Broken about Enqueue, Dispatch about
--   Dequeue, Represents, Transitions, Agreement, Refinement and Queueing about the histories of the
--   jobs against Memory, Exclusion about locks, Hazards about deletion and broken connections, Expiry about
--   RemoveExpired. Tests has a codec, and a server that keeps the log of its commands.
-- - Postgres: internal/storage/postgres. Postgres has the tables of migrations/001_initial.up.sql
--   (`Tables`), the statements and the transactions (`Session`), Jobs is Enqueue,
--   EnqueueIdempotent and Dequeue of jobs.go, States the rest of jobs.go with retry.go and
--   RemoveExpired of misc.go, Scheduled the scheduled jobs of scheduled.go, Registry servers.go with
--   the rest of scheduled.go and the counters, Queries queries.go, Locks the locks of misc.go.
--   Represents, Agreement and Refinement are proofs about the histories against Memory (Memory/Moves
--   has the calls that are compared), Atomic about EnqueueIdempotent after a failed transaction, Order
--   about Dequeue, Exclusion
--   about locks, Hazards about deletion.
--
-- The parts meet as they do in the code: the handlers, the workers, the coordinator and the
-- recurring manager call the store, and a worker is written against the interface Storage only.
--
-- Modelling:
-- - A time is the number of nanoseconds since Go's zero time, a duration an int64. `Runtime` gives
--   the readings of time.Now and uuid.NewString that a call makes, in their order, and the text of
--   Time.Format, so that every theorem holds for every clock. A time has no zone: `rfc3339` is one
--   text for an instant, where redis/retry.go formats in UTC and memory.go in the zone of the
--   value it is given, so the model is of processes whose zone is UTC.
-- - A method of the store holds its mutex from its start to its end, so it is one step. Dequeue
--   lets the mutex go inside, and its model carries whether it is held.
-- - `fault` is a panic or a fatal error of the run time: an index out of range, a nil dereference,
--   an unlock of an unlocked mutex. Errors are values.
-- - A map is the function that looks a key up; where the code ranges over a map, the order of
--   the visit is an argument, for any order.
-- - int64 wraps around (`int64`). An int that counts the elements of a slice does not reach 2 ^ 63.
-- - Dequeue polls until its deadline: the passes are a list of what wakes it, and it ends with the
--   list. `decimal` prints by recursion on 20 digits, more than an int64 has. The loop of Dequeue on
--   Redis has fuel for its turns: one more than its queues hold ids is enough. No other loop has
--   fuel: all others are recursion on a list.
-- - On Redis a call is a sequence of round trips. A script or a command is one step of the server, a
--   pipeline is not: when the connection breaks, the server has run a prefix of it. Other clients
--   change the data between the round trips of a call (`meanwhile`), and `quiet` is a call on its
--   own with a connection that holds. A key is used for values of one type. An expiry is a DEL by
--   the server.
-- - On PostgreSQL a transaction works on the tables and is undone as a whole by the Rollback that every
--   call defers; any of its statements can fail, and the answer to its COMMIT can be lost. Rows that
--   a SELECT locks do not change before the transaction ends; where the SELECT locks nothing, other
--   transactions commit after it (`meanwhile`). Ids are UUIDs, and times are kept exactly.
-- - A handler, encoding/json, the cron scheduler and the parser of cron expressions are
--   parameters.
--
-- Not modelled: GetAllCounters of the Redis and the PostgreSQL store (pages), GetQueues of the latter
-- (an ORDER BY of texts), the opening and closing of their clients, the start and stop of goroutines
-- and tickers, logging, metrics, the HTTP server's routing and encoding, the handler that runs a
-- command, the command line, the loading and printing of the configuration.
pub mod Prelude
pub mod Job
pub mod Memory
pub mod Middleware
pub mod Engine
pub mod Config
pub mod Api
pub mod Redis
pub mod Postgres
