-- ===== src/Runtime/Resolve.antt =====
-- `resolve` (src/runtime.rs).
pub mod Current
pub mod Settled
pub mod Settles
use rollforward.Prelude.{
  String, Bytes, Bool, ◌&&◌, none, some, List, [], ◌∷◌, str, ◌==◌, list_eq, nat_eq, option_eq,
  list_ord, nat_ord, if◌then◌else◌, find, head?, contains, unwrap_or,
}
use rollforward.Collections.BTreeMap
use rollforward.Errors.{err, io_error, conflict_need_resolution, ok_or}
use rollforward.Types.{
  ResourceKey, ResourceKind, text, binary, ReplicaState, ResourceChange, ConflictRecord,
  LocalResource, ResourceContent, LocalMutation, LocalApplyResult, SyncReport, VersionChoice,
  PreservedVersion, ResolveConflictRequest, version_token, local_content_id, key_eq,
}
use rollforward.Runtime.State.{RuntimeState, heads}
use rollforward.Runtime.Remote.{is_text_delta}
use rollforward.Runtime.Action.{Action, ◌>>=◌, get_state, modify, call, return, outcome, for_each}
use rollforward.Runtime.Inventory.{local_inventory}
use rollforward.Runtime.Publish.{publish_bytes, publish_delete}
use rollforward.Runtime.Content.{content_for_remote}
use rollforward.Runtime.Plan.{precondition, set_present_baseline, set_deleted_baseline}
use rollforward.Runtime.Progress.{SyncRuntime, save}
use rollforward.Runtime.Apply.{mutate, reason_or}
use rollforward.Runtime.Reconcile.{reconcile}

unfoldable pub remove_conflict : String → RuntimeState → RuntimeState
remove_conflict id state = record state { conflicts = BTreeMap.remove id state.conflicts }

-- The state of the resource in an inventory.
unfoldable pub current_state : ResourceKey → List LocalResource → ReplicaState
current_state key local = elim (find (λ resource. resource.key == key) local) [
  | none ↦ ReplicaState.missing
  | some resource ↦ resource.state
]

-- Whether the replica still has what the conflict was recorded for.
unfoldable pub same_version : ReplicaState → ReplicaState → Bool
same_version current recorded =
    (version_token current == version_token recorded)
    && (local_content_id current == local_content_id recorded)

abbrev pub kind_of : ResourceChange → ResourceKind
kind_of change = if is_text_delta change then text else binary

module _ {W : Type 0} (r : SyncRuntime W) where
  unfoldable pub read_local : ResourceKey → Action W ResourceContent
  read_local key = call (r.adapters.read_resources (key ∷ [])) >>= (λ contents.
      outcome (ok_or (io_error (str "local conflict side disappeared")) (head? contents)))

  unfoldable pub preserved_bytes : ResourceKey → VersionChoice → Action W Bytes
  unfolding read_local
  preserved_bytes key VersionChoice.local = read_local key >>= (λ content. return content.bytes)
  preserved_bytes key (VersionChoice.remote commit_id) =
      get_state >>= (λ state. content_for_remote r.adapters r.yrs state key (some commit_id))
  preserved_bytes key VersionChoice.delete =
      outcome (err (io_error (str "a deletion cannot be preserved as a copy")))

  -- The body of the loop over the versions to be preserved.
  unfoldable pub preserve : ResourceKey → PreservedVersion → Action W Unit
  unfolding preserved_bytes
  preserve key version = do
    bytes ← preserved_bytes key version.source
    _ ←
        mutate r (LocalMutation.create_copy version.target bytes)
          (str "local replica returned no copy result")
          (reason_or (str "copy target already exists"))
    return tt

  -- The local deletion, unless there is nothing to delete.
  unfoldable pub delete_present :
      ResourceKey → ReplicaState → String → (LocalApplyResult → String) → Action W Unit
  delete_present key ReplicaState.missing absent reason = return tt
  delete_present key (ReplicaState.deleted _) absent reason = return tt
  delete_present key (ReplicaState.present content_id size token) absent reason =
      let local = ReplicaState.present content_id size token in
      mutate r (LocalMutation.apply_delete key (precondition local)) absent reason
      >>= (λ _. return tt)

  -- Deleted on both sides.
  unfoldable pub settle_deleted :
      ResourceKey
      → ReplicaState
      → String
      → (LocalApplyResult → String)
      → List String
      → String
      → Action W Unit
  unfolding delete_present
  settle_deleted key local absent reason parents operation_id = do
    _ ← delete_present key local absent reason
    commit ← publish_delete r.adapters r.hashing r.yrs r.codecs r.client_id key parents
    modify (set_deleted_baseline key (commit.id ∷ []) operation_id)

  -- A recorded version, written to the replica and published again.
  unfoldable pub settle_version :
      ResourceKey
      → ReplicaState
      → String
      → ResourceChange
      → String
      → (LocalApplyResult → String)
      → List String
      → String
      → Action W Unit
  settle_version key local commit_id change absent reason parents operation_id = do
    state ← get_state
    bytes ← content_for_remote r.adapters r.yrs state key (some commit_id)
    result ← mutate r (LocalMutation.write_present key bytes (precondition local)) absent reason
    commit ←
        publish_bytes r.adapters r.hashing r.yrs r.codecs r.client_id key (kind_of change) bytes
          parents
    modify (
        set_present_baseline key (r.hashing.blake3 bytes) (unwrap_or [] result.version_token)
          (commit.id ∷ []) operation_id)

  unfoldable pub resolve_local : ResourceKey → List String → String → Action W Unit
  unfolding read_local
  resolve_local key parents operation_id = do
    content ← read_local key
    commit ←
        publish_bytes r.adapters r.hashing r.yrs r.codecs r.client_id key content.kind content.bytes
          parents
    modify (
        set_present_baseline key (r.hashing.blake3 content.bytes) content.version_token
          (commit.id ∷ []) operation_id)

  unfoldable pub resolve_deleted : ResourceKey → ReplicaState → List String → String → Action W Unit
  unfolding settle_deleted
  resolve_deleted key local parents operation_id =
      settle_deleted key local (str "local replica returned no delete result")
        (reason_or (str "delete precondition failed")) parents operation_id

  unfoldable pub resolve_selected :
      ResourceKey → ReplicaState → String → List String → String → ResourceChange → Action W Unit
  unfolding resolve_deleted settle_version
  resolve_selected key local commit_id parents operation_id ResourceChange.delete =
      resolve_deleted key local parents operation_id
  resolve_selected key local commit_id parents operation_id (ResourceChange.text_delta delta) =
      settle_version key local commit_id (ResourceChange.text_delta delta)
        (str "local replica returned no write result") (reason_or (str "write precondition failed"))
        parents operation_id
  resolve_selected key local commit_id parents operation_id
        (ResourceChange.binary_snapshot content_id size hashes) =
      settle_version key local commit_id (ResourceChange.binary_snapshot content_id size hashes)
        (str "local replica returned no write result") (reason_or (str "write precondition failed"))
        parents operation_id

  unfoldable pub resolve_remote :
      ConflictRecord → ReplicaState → String → List String → String → Action W Unit
  unfolding resolve_selected
  resolve_remote conflict local commit_id parents operation_id =
      if contains conflict.remote_heads commit_id
      then get_state >>= (λ state.
        outcome (
          ok_or (io_error (str "selected remote commit is unavailable"))
            (BTreeMap.get commit_id state.commits))
        >>= (λ selected.
            resolve_selected conflict.resource local commit_id parents operation_id
              selected.change))
      else outcome (err (io_error (str "selected remote version is no longer a head")))

  unfoldable pub resolve_primary :
      ConflictRecord → ReplicaState → List String → String → VersionChoice → Action W Unit
  unfolding resolve_local resolve_deleted resolve_remote
  resolve_primary conflict local parents operation_id VersionChoice.local =
      resolve_local conflict.resource parents operation_id
  resolve_primary conflict local parents operation_id VersionChoice.delete =
      resolve_deleted conflict.resource local parents operation_id
  resolve_primary conflict local parents operation_id (VersionChoice.remote commit_id) =
      resolve_remote conflict local commit_id parents operation_id

  -- A conflict that is out of date is forgotten.
  unfoldable pub stale : String → Action W Unit
  unfolding remove_conflict
  stale id = do _ ← modify (remove_conflict id); _ ← save r; outcome (err conflict_need_resolution)

  -- What is done once both sides are known to be as recorded.
  unfoldable pub resolve_current :
      ResolveConflictRequest → ConflictRecord → List String → ReplicaState → Action W Unit
  unfolding preserve resolve_primary remove_conflict
  resolve_current request conflict parents local = do
    _ ← for_each (preserve conflict.resource) request.preserved
    _ ← resolve_primary conflict local parents request.conflict_id request.primary
    _ ← modify (remove_conflict request.conflict_id)
    save r

  unfoldable pub resolve_if_same :
      ResolveConflictRequest → ConflictRecord → List String → ReplicaState → Action W Unit
  unfolding same_version stale resolve_current
  resolve_if_same request conflict parents local =
      if same_version local conflict.local
      then resolve_current request conflict parents local
      else stale request.conflict_id

  -- The block that holds the lock, for a conflict that is recorded.
  unfoldable pub resolve_conflict : ResolveConflictRequest → ConflictRecord → Action W Unit
  unfolding stale resolve_if_same current_state
  resolve_conflict request conflict = get_state >>= (λ state.
      let parents = heads state conflict.resource in
      if parents == conflict.remote_heads
      then local_inventory r.hashing r.adapters state (conflict.resource.scope_id ∷ [])
        >>= (λ local.
            resolve_if_same request conflict parents (current_state conflict.resource local))
      else stale request.conflict_id)

  unfoldable pub resolve : ResolveConflictRequest → Action W SyncReport
  unfolding resolve_conflict
  resolve request = get_state >>= (λ state.
      outcome (
        ok_or (io_error (str "conflict no longer exists"))
          (BTreeMap.get request.conflict_id state.conflicts))
      >>= (λ conflict.
          resolve_conflict request conflict
          >>= (λ _. reconcile r (record { scopes = conflict.resource.scope_id ∷ [] }))))
