-- ===== src/Lib.antt =====
-- The synchronization engine of rollforward: local replicas that exchange whole files and texts over a
-- remote of immutable commits and packs.
--
-- How the parts interact. A replica lists its resources, and the runtime keeps a baseline for each: the
-- content that both sides acknowledged last. `refresh_remote` reads the remote's catalog and records
-- its commits. The heads of a resource's commits make its remote state, the planner compares the three
-- states of every resource, and publishing puts a new commit on top of the heads. Binary contents
-- travel as chunks in packs, texts as updates of a yrs document.
--
-- The files, and the code that each is about:
--   Types       src/v2_types.rs: its records and enums, the ids of commits and conflicts.
--   Errors      SyncError of src/types.rs, Result and `?`.
--   Planner     src/core.rs: plan_resource, plan_inventory.
--   Binary      src/binary.rs: chunk_data, build_packs, reassemble, merge_manifests, classify_pack.
--   Text        src/text.rs: diff_middle (a text is its list of characters), TextDoc over yrs.
--   Runtime     src/runtime.rs. State, Heads, Graph and Remote: RuntimeState and what it derives from
--               its commits. Action: an operation as a function of the state, of a world and of the
--               variables of a run, with the traits of src/adapter.rs as a record of calls. A change of
--               the state that was made before an error stays, as behind the source's mutex. Refresh,
--               Snapshots, Inventory, Content, Plan, Publish and Queries: the methods of SyncRuntime of
--               these names. Progress: SyncRuntime, its events, save and with_backends. Upload (its
--               contents, the batch, its commits), Apply (the closure of each operation) and Execute:
--               the parts of execute. Reconcile: preview, reconcile, retire_client and close. Resolve,
--               Rollback, Maintain: the methods of these names. Additive and Session: what all the
--               methods together keep, one after another.
--   Store       src/v2_store.rs: RedbRuntimeStore over redb, whose calls are parameters: Laws has what
--               redb promises of them.
--   Folder      src/v2_remote.rs: the folder remote, its files a map from paths to bytes.
--   Prelude, Collections, Foreign
--               Shared helpers: Booleans, orders, lists, strings as bytes; the ordered maps and sets of
--               std as ascending lists, with their lookups; blake3 and serde_json as parameters.
--
-- Parameters. blake3, serde_json, FastCDC, yrs, redb, the clock and the adapters are arguments of the
-- definitions that use them; what a theorem asks of them is among its hypotheses. Hash sets and maps
-- that the source only looks up are lists and ordered maps here.
--
-- Numbers are natural numbers. Where the source's integer can leave its range, the wrap (u64 counters)
-- or the cap (`try_from(..).unwrap_or(u32::MAX)`) is written out; `n as f64` is computed exactly.
--
-- Fuel. The walks of the commit graph run for two rounds more than there are recorded parents: each
-- round pops one id, and an id's parents are pushed once. `decimal n` has more rounds than n has digits,
-- and `to_f64` has the eleven that take 64 bits down to 53. Everything else is structural recursion.
--
-- A map that is indexed by a missing key panics in the source; the checks before rule that out, and the
-- model returns an error there. The clock is read from the world, and stands still between two calls.
--
-- Not modelled: the mutex itself, and calls of the runtime that overlap (each holds the lock for its
-- whole block, but resolve and rollback release it before they reconcile); the modules src/engine.rs,
-- src/oplog.rs, src/remote.rs and src/store.rs, which src/lib.rs does not link; the bindings, which are
-- generated. The folder's disk is one that does not fail on a write, and its temporary files, which
-- only serve to make a write atomic, are left out.
pub mod Prelude
pub mod Collections
pub mod Errors
pub mod Types
pub mod Foreign
pub mod Planner
pub mod Binary
pub mod Text
pub mod Runtime
pub mod Folder
pub mod Store
