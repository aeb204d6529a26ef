-- ===== src/Runtime/Rollback.antt =====
-- `rollback` (src/runtime.rs).
use rollforward.Prelude.{
  String, none, some, List, [], ◌∷◌, str, ◌==◌, list_eq, nat_eq, list_ord, nat_ord, if◌then◌else◌,
}
use rollforward.Collections.BTreeMap
use rollforward.Errors.{Result, ok, err, SyncError, io_error}
use rollforward.Types.{
  ReplicaState, ResourceChange, Commit, LocalApplyResult, SyncReport, RollbackRequest, key_eq,
}
use rollforward.Runtime.State.{RuntimeState, heads}
use rollforward.Runtime.Action.{Action, ◌>>=◌, get_state, outcome}
use rollforward.Runtime.Inventory.{local_inventory}
use rollforward.Runtime.Progress.{SyncRuntime, save}
use rollforward.Runtime.Reconcile.{reconcile}
use rollforward.Runtime.Resolve.{current_state, settle_deleted, settle_version}

-- The commit to go back to, if it is one of the resource.
unfoldable pub rollback_target : RollbackRequest → RuntimeState → Result Commit SyncError
rollback_target request state =
    let missing = err (io_error (str "rollback version is unavailable")) in
    elim (BTreeMap.get request.commit_id state.commits) [
      | none ↦ missing
      | some commit ↦ if commit.resource == request.resource then ok commit else missing
    ]

-- The replica's own reason is not told.
abbrev refused : String → LocalApplyResult → String
refused reason result = reason

module _ {W : Type 0} (r : SyncRuntime W) where
  unfoldable pub rollback_change :
      RollbackRequest → ReplicaState → List String → ResourceChange → Action W Unit
  rollback_change request local parents ResourceChange.delete =
      settle_deleted r request.resource local (str "local replica returned no rollback result")
        (refused (str "rollback delete precondition failed")) parents (str "rollback")
  rollback_change request local parents (ResourceChange.text_delta delta) =
      settle_version r request.resource local request.commit_id (ResourceChange.text_delta delta)
        (str "local replica returned no rollback result")
        (refused (str "rollback write precondition failed")) parents (str "rollback")
  rollback_change request local parents (ResourceChange.binary_snapshot content_id size hashes) =
      settle_version r request.resource local request.commit_id
        (ResourceChange.binary_snapshot content_id size hashes)
        (str "local replica returned no rollback result")
        (refused (str "rollback write precondition failed")) parents (str "rollback")

  -- The block that holds the lock.
  unfoldable pub rollback_locked : RollbackRequest → Action W Unit
  unfolding rollback_target rollback_change
  rollback_locked request = do
    state ← get_state
    selected ← outcome (rollback_target request state)
    local ← local_inventory r.hashing r.adapters state (request.resource.scope_id ∷ [])
    _ ←
        rollback_change request (current_state request.resource local)
          (heads state request.resource) selected.change
    save r

  unfoldable pub rollback : RollbackRequest → Action W SyncReport
  unfolding rollback_locked
  rollback request =
      rollback_locked request
      >>= (λ _. reconcile r (record { scopes = request.resource.scope_id ∷ [] }))
