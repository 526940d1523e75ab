-- ===== src/Lib.antt =====
-- The worker consumes events from Kafka, keeps the events of one entity in order, runs a processor on
-- each, and commits an offset only when every earlier record of the partition is done. An event that
-- fails goes to a retry topic, from there into a schedule in Redis and, when it is due, back to its
-- topic; one that cannot be retried goes to a dead letter topic.
--
-- The parts, with the module that models each:
--   OffsetManager  internal/offsetmanager/manager.go. `PartitionState` is partitionState (Partition),
--                  `Manager` the map of them with the channels of waiting drains (Manager); Track,
--                  Complete, Drain, FlushPartition, FlushAll, Forget and Start are `track`,
--                  `complete`, `begin_drain` with `drain` (Waiting), `flush_partition`, `flush_all`,
--                  `forget` and `start`. The locks make each of them one step. Session has the
--                  abstract view of a partition, the records in work and done, and Refinement the
--                  step from many partitions to one.
--   Consumer       internal/consumer: `New` and `Stop` (Pools), the poll loop `start` (Polling),
--                  `dispatch` and `dispatch_retry` on the consumer's state `World` (Dispatch),
--                  `process_with_fallback` (Fallback), the job that a lane runs (Job) and the
--                  callbacks of a rebalance (Rebalance).
--   Delivery       the goroutines that cmd/worker/main.go starts, with what they share (Worker) and as
--                  one step relation (Interleaving): the poll loop fetches and dispatches, lanes take
--                  and end jobs, the flush loop commits, the scheduler changes the schedule, `Stop`
--                  closes the lanes, partitions come and go, in any order. Ledger ties each
--                  partition to a session of OffsetManager; Commits says what is committed, and
--                  Shutdown what the last flush asks for once the lanes are drained. Lines says how
--                  records stand in the lanes, and Starts in which order the lanes start them.
--   WorkerPool     internal/workerpool/pool.go: lanes as bounded queues, with FNV-1a written out
--                  (Hash); System interleaves the dispatcher and the lanes' goroutines.
--   Event          internal/event: errors (Errors), the event (Types), ParseAndValidate (Envelope) and
--                  AffinityKey (Affinity, and Keys for what a key stands for).
--   Retry          internal/retry: the envelope and its JSON (Envelope), the publisher with its
--                  backoff (Publisher), the scheduler (Scheduler), its ticks before a retry is due
--                  (Waiting), its callback (Callback), and several instances of it on one Redis
--                  (Fleet).
--   Middleware     internal/middleware/pipeline.go: Execute.
--   Idempotency    internal/idempotency/store.go: the interface Store with its contract, which
--                  RedisStore keeps over any Redis client that keeps Redis's.
--   Processors     internal/processor: the two processors.
--   Config         internal/config/config.go: the readers of the environment (Env), the connection
--                  strings (Uri) and Load (Load).
--   Health         internal/health/server.go: the two probes.
--   Main           cmd/worker/main.go: `start_up`, up to the go statements.
--   Registry       internal/registry/registry.go. Dlq: internal/dlq/publisher.go. Metrics: the message
--                  counters of internal/metrics/metrics.go.
-- Json, Kafka, Time, Redis and Retry.ScheduleRedis are what lies outside the repository. encoding/json
-- is written out for the structs that the worker decodes and encodes. A call of Produce is a value,
-- `Publication`, and its callback a function of the broker's answer. The two Redis clients and RFC
-- 3339 are parameters: records of operations, with their documentation as laws. Samples has concrete
-- instances of them, and the Tests modules and Retry.Runs apply theorems to small inputs.
--
-- Numbers: Go's int and int64 are integers with the wrap-around written out where the code adds
-- (`add64`, `sub64`); offsets and counts in theorems are machine integers by hypothesis where that
-- matters. Loops are by structural recursion, so no fuel is needed: the loop of committableOffset runs
-- over a bound taken from the size of the completed set, which it cannot exceed, the attempts of
-- dispatchRetry count down from three, and a drain waits over the list of the calls that other
-- goroutines make meanwhile. A text is the list of its bytes. The clock is an argument; within one
-- call it reads the same throughout.
--
-- Left out: internal/logger and all logging, the gauges and the histograms, which change nothing that
-- the code reads; the two HTTP servers and the signal. A step of Delivery is one call, as the locks
-- make it, and one round of the loop of FlushAll may be a step by itself; FlushAll as a whole is also
-- one step. A partition is revoked or lost there only when the worker holds none of its records; a
-- revocation that must wait is modelled by itself, in Consumer.Rebalance and OffsetManager.Waiting,
-- and so is what a drain that timed out leaves behind. A job whose Publish panics ends the process,
-- so Delivery has no step for it. A step of Retry.Fleet is one call of Redis or one Produce; the
-- callback of a refused Produce is a call of Schedule.
-- The processor is any function from a context and an event to an error, nil or a panic.
mod Base
pub mod Json
pub mod Time
pub mod Event
pub mod OffsetManager
pub mod Registry
pub mod Redis
pub mod Idempotency
pub mod Middleware
pub mod WorkerPool
pub mod Kafka
pub mod Metrics
pub mod Dlq
pub mod Retry
pub mod Config
pub mod Health
pub mod Consumer
pub mod Delivery
pub mod Processors
pub mod Main
pub mod Samples
