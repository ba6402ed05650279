-- ===== src/Lib.antt =====
-- capivara: a job queue with typed tasks. Producers send jobs to a broker; workers claim them
-- under a lease, run the handler of the job's task, and settle the claim: acknowledge it, put the
-- job back for a later attempt, or dead-letter it. Results may be stored in a result backend. This
-- library models that program and proves that it keeps its promises.
--
-- The parts, by the files of the repository:
--
--   src/error.rs is Error: the error type with its texts, `Result`, and `Exec`, a function on
--     shared state that ends in a value, an error or a panic and keeps what it wrote.
--   src/job.rs and the types of src/broker/mod.rs are Job: `Job`, `ClaimedJob`, `NackAction`,
--     `DeadLetter`; ids and tokens are their UUID's text.
--   src/broker/mod.rs is Broker: the trait `Broker`, a record of operations over the state its
--     callers share.
--   src/broker/memory.rs is Memory, with Memory/Claim (`claim`: one pass under the mutex, and
--     the loop that sleeps between passes) and Memory/Settle (`ack`, `nack`, `dead_letter`,
--     `list_dead`). The mutex makes each call, and each pass of `claim`, one step on `Inner`.
--   src/retry.rs is Retry: `RetryPolicy::delay_for_attempt`.
--   src/registry.rs and src/task.rs are Registry: tasks, and their erased handlers by name.
--   src/result/mod.rs and src/result/memory.rs are Results: the trait `ResultBackend` and the
--     in-process backend.
--   src/worker/mod.rs is Worker (`process_one` and the settling of a claim), Worker/JoinSet
--     (what the loop sees of its spawned tasks) and Worker/Drain (`Worker::run` as a state
--     machine).
--   src/broker/redis_broker.rs is Redis, with Redis/Keys (the keys and members), Redis/Scripts
--     (the Lua scripts), Redis/Claim (`enqueue`, `claim`) and Redis/Settle (`ack`, `nack`,
--     `dead_letter`, `list_dead`); src/result/redis_result.rs is Redis/Results. Redis/Connect
--     has the configuration and the constructors of both, and Redis/Host puts them together as
--     implementations of the two traits.
--   src/app.rs is App: the facade that builds workers and sends jobs.
--   Local puts the in-process broker and results together as implementations of the two traits.
--   Prelude holds shared names, and the maps that stand for `HashMap`; Time holds `Duration` and
--     `Instant`.
--   Tests runs definitions, and applies the theorems, at concrete inputs.
--
-- The worker and the app are written against the traits, so their theorems hold for every broker
-- and backend; Memory and Results are the implementations in this repository's process.
--
-- Choices. Readings of the clock, fresh tokens and ids, and random draws are arguments. A
-- `HashMap` is iterated in an order that is an argument too. Times are nanoseconds on the natural
-- numbers, with the limits of `Duration` and of `Instant` written out: past them `Instant +
-- Duration` panics. `attempts` is a `u32` and saturates. serde_json is a parameter of a task.
-- `claim` has a list of rounds for its loop, each with its readings of the clock and with what
-- others do during its sleep; a theorem bounds the rounds it needs, and in Local and Redis/Host
-- the last one reads its clock past the deadline. `Worker::run` is a step function: the loop's
-- next step, the end of a spawned task and the acts of others come as a sequence of events in any
-- order. The spawned tasks run `process_one` as one step; a broker whose state holds the moves of
-- others makes them between its calls.
--
-- Redis is a parameter: a record of its commands over a keyspace, with what the code relies on as
-- named laws (Redis/Laws for texts; Redis/Structures for lists, sorted sets and what a command
-- leaves alone), and `invoke`, which runs a command, a transaction or a script, and may fail. Its
-- theorems are for a server that answers, and for calls of which no two overlap, unless a theorem
-- takes a call apart into its commands. The sums of milliseconds wrap at 64 bits, as in a release
-- build.
--
-- Not modelled: the driver that opens connections, the conversions of JSON, the cancellation of a
-- future in the middle of a call, and the documentation.
pub mod Prelude
pub mod Time
pub mod Error
pub mod Job
pub mod Memory
pub mod Retry
pub mod Broker
pub mod Results
pub mod Registry
pub mod Worker
pub mod App
pub mod Local
pub mod Tests
pub mod Redis
