-- ===== src/Lib.antt =====
-- The runtime of GG-CORE (core-runtime/src), a process that loads models, queues inference requests
-- and runs them under limits: a model of the parts that keep state, and what they guarantee. The
-- source files below are named from core-runtime/src.
--
-- The parts and their files here:
--   Memory/Paged      memory/paged.rs: pages of key and value slots (Page) and the pool that hands
--                     them out (PageTable). A page is addressed by its index; floats are a type
--                     parameter F with its zero; a slice operation that Rust refuses is none.
--   Memory/KvCache    memory/kv_cache_config.rs, kv_cache_core.rs, kv_cache_ops.rs: sequences over
--                     the page table, least-recently-used eviction and the sliding window. Each
--                     public method is a state transformer (Run), which returns a state on errors too.
--   Memory/Limits     memory/limits.rs: reservations of memory and slots by atomic steps, as functions
--                     and as a step relation over all interleavings of calls.
--   Memory/Arena      memory/arena.rs: bump allocation, by a load and an exchange between which other
--                     tasks run (Rounds), with the wrap-around of its sums, and the pool of arenas.
--   Memory/PromptCache  memory/prompt_cache.rs: entries under the digest of their tokens, with a limit on
--                     their number and eviction of the least recently used.
--   Scheduler         scheduler/: Priority (priority.rs), Queue (queue.rs, queued_request.rs,
--                     streaming_queue.rs), Batch (batch.rs), Continuous (continuous.rs) and Dedup
--                     (dedup.rs, with a key of any type for the digest). The request queue holds a
--                     priority queue of requests and a queue of streams under one limit.
--   Models            models/: Registry (registry.rs), Router (router.rs), Drain (drain.rs),
--                     Lifecycle (lifecycle.rs, over the registry and the engine's model table) and
--                     Swap (preload.rs, swap.rs, over the registry, the router and the tracker),
--                     Pool (pool.rs, over the registry: preloaded models with tiers and eviction) and
--                     Version (version.rs: texts, the order and ranges of versions).
--   Deployment        Traffic (ab_testing/traffic: the variant of a request by weights and buckets), and
--                     deployment/: Thresholds (thresholds.rs, over an interface of floats), Metrics
--                     (metrics.rs, the window of samples) and Canary (canary.rs, the controller that
--                     raises the share of a new version step by step, promotes it or rolls it back).
--   Engine/MultiGpu   engine/multi_gpu.rs, multi_gpu_partition.rs: how a model is spread over devices.
--   Shutdown          shutdown.rs: the coordinator of a shutdown with the tasks around it, as a step
--                     relation over all interleavings.
--   Ipc/Connections   ipc/connections.rs: the pool of connection slots, as a step relation over all
--                     interleavings of loads and exchanges.
--   Ipc/Encoding      ipc/encoding.rs: token sequences as little-endian bytes behind a count.
--   Ipc/Auth          ipc/auth.rs, auth_session.rs: sessions of callers with a limit on attempts.
--   Security/Stream   security/stream_sanitizer.rs: the sanitizer of a text that grows token by token, over
--                     the bytes of the text.
--   Prelude           Boolean tests, lists, counts and the hash map, which is an association list
--                     with a decision of equality on its keys; the first least item by a key
--                     (MinBy), and bytes and masks of words (Bytes, Masks).
--
-- Numbers are natural numbers. A counter that the source increments without a check keeps its
-- wrap-around (% 2 ^ 64, % 2 ^ 32); a theorem that needs room for it says so. Sums of lengths of
-- objects in memory are not wrapped. The clock is an argument of the method that reads it. A lock
-- makes a method one step, except where a file says which steps other tasks run between.
--
-- Loops: the dequeue loop runs on fuel, the length of its queue, each round of which takes one item
-- out; Served shows that it finds what the whole line holds. The waiting loops of Drain and Shutdown
-- go over the list of what their rounds see and end with none where they would still wait.
-- The eviction loop of the model pool runs for a number of rounds; where other tasks put no model in,
-- one round more than there are models is enough, since each takes a model out. Printing a version has fuel for ten digits, the most that a 32-bit number has.
--
-- Parameters: what the security pipeline makes of a text and the test for alphanumeric chars, digests
-- and hashes (the SHA-256 of tokens and prompts), the generator of session ids and the random bucket
-- of a request, the order and the operations of the floating point numbers that the thresholds
-- compare.
--
-- Not modelled: the optional `advanced` feature (quantised store), attention scores and other
-- floating point sums, the statistics of the cache, and the parts that only call other libraries:
-- the inference backends, the command line, the foreign function and Python interfaces, telemetry,
-- Kubernetes types and the sandbox.
pub mod Deployment
pub mod Engine
pub mod Ipc
pub mod Memory
pub mod Models
pub mod Prelude
pub mod Scheduler
pub mod Security
pub mod Shutdown
