-- ===== src/Lib.antt =====
-- cs-stratum-bridge: the bridge between stratum miners and the `csd` daemon, modelled component by
-- component. Paths are those of the repository.
--
-- The bridge relays proof-of-work traffic and owns the OPoI traffic: it hands requests to connected
-- miners, takes their answers, and drives each answer through commit, reveal, publish and payout.
--
-- - Base: names of the libraries, Boolean tests, lists by index, texts, and the maps that stand for
--   DashMap, IndexMap, HashMap and HashSet. A text is its bytes; a map is its entries.
-- - AppError (src/error.rs): the errors and their stratum codes.
-- - Registry (src/miner_registry.rs): the connected miners, their capabilities and the bans; whom
--   `pick_next`, `pick_draft_capable`, `pick_auditor_capable` and `pick_expert_host` select.
-- - Assignment (src/opoi/assignment.rs): which wallet holds a request.
-- - RateLimit (src/http/rate_limit.rs): the fixed window per address.
-- - StakePool (src/stake_pool.rs): the rotation over the stake addresses.
-- - Wire (src/opoi/wire.rs) and Rpc (src/rpc/types.rs): the messages, and the daemon's answers.
-- - Daemon (src/rpc/csd_client.rs): the calls of the daemon as an interface, with a state of its own.
-- - Db (src/db/models.rs, src/db/repo.rs): the tables and the queries on submissions, commit
--   attempts, receipts and consequences.
-- - Engine (src/opoi/engine.rs): prompts and answers (Submit), the commit in at most five rounds
--   (Commit, whose fuel is the number of rounds left), reveals and publishing (Reveal), whom a request
--   is handed to (Assign), the stakes and the start (Stake).
-- - Payout (src/payout/mod.rs): what is due to each wallet, and what a payment marks.
-- - Bytes and Receipts (src/opoi/b3lite.rs): the bytes of numbers and of receipts, signing.
-- - Contributions: the steps of each wallet, and who is paid.
-- - Gguf (src/opoi/expert_vram.rs): the header of a model's file (Header), whose recursion into nested
--   arrays has the length of the file as fuel, and the memory of an expert (Vram).
-- - Audit (src/opoi/b3lite_audit.rs): the audits (Run) and what they ask of the machine (Host).
-- - Experts (src/opoi/expert_dispatch.rs): one dispatch, its retries and the group (Dispatch), and the
--   weighted sum of the outputs (Combine).
-- - Speculative (src/opoi/speculative_engine.rs): the arithmetic of a round (Round, Greedy), the
--   pipelines (Pipeline), what is sent (Dispatch), what comes back (Results) and the end of a round
--   (Rollback). Lines describes the lines of a rollback and of the next draft on their own.
-- - Shard (src/opoi/shard_engine.rs): the graph of a model that is split over miners and the pipelines;
--   what is sent (Dispatch), what comes back (Results), the experts of a layer (FanOut), the end of a
--   pipeline (Finish), how one begins (Poll), the live report (Topology), and what is relied on (Host).
--   It calls the stake pool, the experts, the receipts, the submission store and the speculative
--   engine, which are those of the modules above.
-- - Session (src/proxy/session.rs, src/opoi/handler.rs): a connection between a miner and the pool; the
--   handlers of the engines are an interface.
-- - Http (src/http/handlers.rs): the prompts and the questions of requesters, on the two engines.
--
-- A handler is one step on the state, but for the waits of an expert's dispatch and of an audit, in which
-- other handlers run (the ticks, disconnections and prompts of the shard engine, but no other result of a
-- miner); lines to miners and spawned tasks are effects in a log. Numbers of a fixed width
-- are natural numbers that wrap where the code's do; a float is its bits, and its arithmetic is a
-- parameter. Hashes, hexadecimal texts, JSON, the tokenizer and the daemon are parameters; the database
-- answers, and refuses what breaks the index on the active submissions, and a commit whose texts are too
-- long for their columns.
--
-- Not modelled: the sockets, the HTTP server, the configuration, the setup wizard and the transfer of
-- files, which are input and output; the loop of src/opoi/expert_vram.rs over the layers of a file that
-- was fetched; a result that the shard engine takes while the experts of another are awaited; what the
-- other columns of the database refuse, and lost connections.
pub mod Base
pub mod Registry
pub mod RateLimit
pub mod AppError
pub mod Bytes
pub mod Receipts
pub mod Assignment
pub mod StakePool
pub mod Wire
pub mod Rpc
pub mod Contributions
pub mod Db
pub mod Daemon
pub mod Engine
pub mod Payout
pub mod Gguf
pub mod Audit
pub mod Experts
pub mod Speculative
pub mod Shard
pub mod Session
pub mod Http
