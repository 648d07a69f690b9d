-- ===== src/Lib.antt =====
-- git.agentic keeps the state of an agent (code, prompts, tools, model, memory) as commits in a
-- content-addressed store, with branches that name them, and a daemon that commits and rolls back.
-- This library models the parts below and proves what makes them correct.
--
-- The parts, and how they work together:
--   Core/Hash, Core/Object   crates/agentic-core/src/hash.rs, object.rs: 32-byte addresses and the
--     objects that have them. `Hash::from_str` is `from_str`, `Object::hash` is `hash`.
--   Core/Scanner             crates/agentic-core/src/scanner.rs, scanner_patterns.rs: what of a blob
--     looks like a secret. The store asks it before a blob is written.
--   Core/Store               crates/agentic-core/src/store.rs: `trait ObjectStore` is the record
--     `ObjectStore` on a state, `FsObjectStore` is `fs_store` on a disk. Core/Store/Laws is what a
--     client may rely on, as the record `StoreLaws`.
--   Core/Refs                crates/agentic-core/src/refs.rs: branches and HEAD, a small file each.
--   Core/Staging             crates/agentic-core/src/commit.rs: `stage_and_commit_with_now` stages
--     the blobs, then the commit, then writes the branch ref, over any store with `StoreLaws`; the
--     record `Apart` says that store and refs share a state without disturbing each other.
--   Core/Refs/Listing        crates/agentic-core/src/refs.rs: the list of the branches, and a snapshot.
--   Core/Diff                crates/agentic-core/src/diff.rs: what differs between two commits.
--   Core/Approval            crates/agentic-core/src/approval.rs: tokens that approve a rollback.
--   Proto/Framing            crates/agentic-proto/src/framing.rs: frames on the socket.
--   Proto/Messages           crates/agentic-proto/src/lib.rs: requests, replies and their envelope, of
--     both versions of the protocol.
--   Memory/Adapter, Memory/Error  crates/agentic-memory/src/adapter.rs, lib.rs: what a memory backend
--     offers the daemon, a record of actions on a state, and its errors.
--   Memory/Segment           crates/agentic-memory/src/segment.rs: segments, and the manifest that
--     lists them in the order of their keys.
--   Memory/InMemory          crates/agentic-memory/src/in_memory.rs: rows, migrations,
--     the snapshot of the tables and their restore.
--   Agenticd/Limits          crates/agenticd/src/limits.rs: the caps on connections, the rate limit.
--   Agenticd/Migrate         crates/agenticd/src/migrate.rs: the reverse migrations of a rollback,
--     loaded and checked for what `migrations_after` of Memory/InMemory lists.
--   Agenticd/Failure         `anyhow::Error` as the daemon uses it: a root and its contexts.
--   Agenticd/WireError       crates/agenticd/src/wire_error.rs: the reply that an error becomes.
--   Agenticd/Daemon          `DaemonState` of crates/agenticd/src/server.rs, over any store and memory
--     on a state that holds a disk, and the record `Outside` of what the daemon calls besides.
--   Agenticd/Commit          crates/agenticd/src/commit.rs: head, parent, memory snapshot, tools, then
--     `stage_and_commit_with_now`, then HEAD.
--   Agenticd/Rollback        crates/agenticd/src/rollback: Gate is the approval gate, Loaders and
--     Writeback the files of these names, MemoryPhase and Phases the parts of `execute`.
--   Agenticd/Mcp             crates/agenticd/src/mcp.rs: Urls is the policy on the servers of tools and
--     the flag that names them, Json the canonical form of JSON, Fingerprint what is made of an answer.
--   Agenticd/PeerAuth        crates/agenticd/src/peer_auth.rs: the users that may connect.
--   Agenticd/Startup         `DaemonState::open`, and the specs of crates/agenticd/src/membackend.rs and
--     objstore.rs that the flags are read as.
--   Agenticd/Lifecycle       crates/agenticd/src/lifecycle.rs: the check of the refs at the start.
--   Agenticd/Server          crates/agenticd/src/server.rs: Envelopes parses a frame, Dispatch has the
--     handler of each request with the commit slots and the shutdown checks, Connection the loop that
--     reads frames, asks the rate limiter and writes replies.
--   Fs                       what the program uses of `std::fs`, on which store and refs stand.
--   External                 the crates that the program calls, as records of operations, and what
--     their documentation promises, as records of laws.
--   Common                   results, actions, lists, maps, texts and decimal numbers.
--   Samples                  small concrete functions in place of the crates, and runs.
--
-- How code is translated: `&self` methods that write are actions, functions from a state to a
-- result and the state after it, which comes back beside an error too. A disk carries the outcome
-- of each system call to come (it works, fails, or a write is torn), so that a theorem about every
-- disk is one about every failure and about every point at which the program may stop. A `String`
-- is the list of its UTF-8 bytes, a `Vec<u8>` a list of bytes, a `BTreeMap` the list of its entries
-- in the order of their keys, a `HashMap` an association list. What runs under a mutex is one step.
-- What other tasks do while a request waits for the commit lock is `Queue.wait_for_lock`, any function
-- of the state. A socket is a script: what each wait for a frame brings (`Incoming`) and how each
-- write of a reply ends (`Delivery`). JSON is read by functions of `EnvelopeJson`.
--
-- Bounds and fuel: `trim` takes as fuel the length of the text, of which each round removes a byte
-- at least; the decimal form of a u64 takes 20 digits; the loop of `walk_log` counts its limit down,
-- which ends a log whatever the chain of parents; the walks over directories (`collect_branch_files`,
-- `sweep_orphans`) take `suc (longest nodes)`, and no path of the tree is longer. Counters of what is
-- held in memory (connections, lengths) do not reach the end of a usize.
--
-- Not modelled: the Postgres adapter with its triggers, streamer and restore, the cloud store, the
-- command line, the SDK and the site, which are I/O around the parts above; the signals and the drain
-- of the daemon, which only wait. Logging is left out, but for the audit log. That
-- two inputs of blake3 never collide is assumed nowhere.
pub mod Common
pub mod External
pub mod Fs
pub mod Core
pub mod Proto
pub mod Agenticd
pub mod Memory
pub mod Samples
