-- ===== src/Runtime/Action.antt =====
-- What the runtime does: it changes its state, which it keeps behind a mutex, so that the changes made
-- before an error stay, and it calls the adapters (src/adapter.rs), whose effects are on a world.
pub mod Steps
pub mod Preserves
pub mod Outcomes
pub mod Yields
pub mod Success
pub mod Ensures
use rollforward.Prelude.{ℕ, ℤ, String, Bytes, Bool, Option, none, some, List, [], ◌∷◌}
use rollforward.Collections.BTreeMap.{BTreeMap}
use rollforward.Errors.{Result, ok, err, SyncError}
use rollforward.Types.{
  ResourceKey, Commit, LocalResource, ResourceContent, LocalMutation, LocalApplyResult,
  CatalogScanRequest, CatalogDelta, CommitBatch, CommitBatchResult, ChunkLocation, PackRange,
  RangeData, ResourceAck, CatalogCompaction, EngineEvent, SyncReport,
}
use rollforward.Runtime.State.{RuntimeState}

pub data TextMergeResult : Type 0 where
  not_handled : TextMergeResult
  merged : (bytes : Bytes) → TextMergeResult
  conflict : (reason : String) → TextMergeResult

-- The host's hook, which is documented to be deterministic.
pub record TextMergePolicy : Type 0 where
  pub resource_priority : ResourceKey → ℤ
  pub merge_text : ResourceKey → Bytes → Bytes → Bytes → Result TextMergeResult SyncError

-- A call of an adapter.
abbrev pub Call : Type 0 → Type 0 → Type 0
Call W A = W → W × Result A SyncError

-- The traits `LocalReplica`, `RemoteStorageV2`, `RuntimeStore` and `EngineEventListenerV2`, with the
-- optional policy and the clock.
pub record Adapters (W : Type 0) : Type 0 where
  pub list_resources : List String → Call W (List LocalResource)
  pub read_resources : List ResourceKey → Call W (List ResourceContent)
  pub apply_mutations : List LocalMutation → Call W (List LocalApplyResult)
  pub scan_catalog : CatalogScanRequest → Call W CatalogDelta
  pub load_commits : List String → Call W (List Commit)
  pub commit_batch : CommitBatch → Call W CommitBatchResult
  pub lookup_chunks : List String → Call W (List ChunkLocation)
  pub read_ranges : List PackRange → Call W (List RangeData)
  pub write_acknowledgements : List ResourceAck → Call W Unit
  pub list_acknowledgements : List ResourceKey → Call W (List ResourceAck)
  pub list_pack_ids : Call W (List String)
  pub delete_pack_objects : List String → Call W Unit
  pub compact_catalog : CatalogCompaction → Call W Unit
  pub load_runtime_state : Call W (Option Bytes)
  pub save_runtime_state : Bytes → Call W Unit
  pub close : Call W Unit
  pub on_events : List EngineEvent → W → W
  pub text_merge_policy : Option TextMergePolicy
  pub now_millis : W → ℤ

-- What `execute` counts while it runs: these variables keep what was written before an error that a
-- resource's closure returns.
pub record Progress : Type 0 where
  pub report : SyncReport
  pub failures : BTreeMap String ℕ
  pub events : List EngineEvent

-- `SyncReport::default()` with the run's id, and the two empty collections.
unfoldable pub new_run : String → Progress
new_run run_id = record {
  report = record {
    run_id = run_id;
    uploaded = 0;
    downloaded = 0;
    deleted_remote = 0;
    deleted_local = 0;
    unchanged = 0;
    conflicts = 0;
    failures = 0;
    scopes = [];
  };
  failures = [];
  events = [];
}

pub record Machine (W : Type 0) : Type 0 where
  pub state : RuntimeState
  pub world : W
  pub run : Progress

abbrev pub Action : Type 0 → Type 0 → Type 0
Action W A = Machine W → Machine W × Result A SyncError

module _ {W : Type 0} where
  -- What is done after an outcome: an error ends the block, and the changes stay.
  unfoldable pub continue :
      {A B : Type 0}
      → (A → Action W B)
      → Machine W × Result A SyncError
      → Machine W × Result B SyncError
  continue next (m, ok value) = next value m
  continue next (m, err e) = (m, err e)

  infixl 5 ◌>>=◌
  unfoldable pub ◌>>=◌ : {A B : Type 0} → Action W A → (A → Action W B) → Action W B
  unfolding continue
  (first >>= next) m = continue next (first m)

  unfoldable pub return : {A : Type 0} → A → Action W A
  return value m = (m, ok value)

  -- A result that an expression has without any effect.
  unfoldable pub outcome : {A : Type 0} → Result A SyncError → Action W A
  outcome r m = (m, r)

  unfoldable pub get_state : Action W RuntimeState
  get_state m = (m, ok m.state)

  unfoldable pub read_world : {A : Type 0} → (W → A) → Action W A
  read_world f m = (m, ok (f m.world))

  unfoldable pub modify : (RuntimeState → RuntimeState) → Action W Unit
  modify change m = (record m { state = change m.state }, ok tt)

  unfoldable pub get_run : Action W Progress
  get_run m = (m, ok m.run)

  unfoldable pub update_run : (Progress → Progress) → Action W Unit
  update_run change m = (record m { run = change m.run }, ok tt)

  -- A call of the listener, which returns nothing.
  unfoldable pub notify : (W → W) → Action W Unit
  notify f m = (record m { world = f m.world }, ok tt)

  unfoldable pub call : {A : Type 0} → Call W A → Action W A
  call c m = let (world', r) = c m.world in (record m { world = world' }, r)

  -- What is done after the outcome of a closure whose error is caught.
  unfoldable pub recover :
      {A : Type 0}
      → (SyncError → Action W A)
      → Machine W × Result A SyncError
      → Machine W × Result A SyncError
  recover handler (m, ok value) = (m, ok value)
  recover handler (m, err e) = handler e m

  unfoldable pub catch : {A : Type 0} → Action W A → (SyncError → Action W A) → Action W A
  unfolding recover
  catch body handler m = recover handler (body m)

  -- `for` over a list, with `?` in the body.
  unfoldable pub for_each : {A : Type 0} → (A → Action W Unit) → List A → Action W Unit
  for_each body [] = return tt
  for_each body (x ∷ xs) = body x >>= (λ _. for_each body xs)
