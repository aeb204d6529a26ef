-- ===== src/Runtime/Additive/Operations.antt =====
-- `resolve`, `rollback`, `preview` and `retire_client` (src/runtime.rs) preserve what a new commit
-- keeps.
use rollforward.Prelude.{String, List, option_eq, list_eq, nat_eq}
use rollforward.Types.{
  ResourceKey, ReplicaState, ResourceChange, ConflictRecord, LocalApplyResult, SyncRequest,
  VersionChoice, ResolveConflictRequest, RollbackRequest,
}
use rollforward.Runtime.State.{RuntimeState}
use rollforward.Runtime.Action.Preserves.{Preserves, Preserves-for_each, preserves_rules}
use rollforward.Runtime.Plan.{set_present_baseline, set_deleted_baseline}
use rollforward.Runtime.Progress.{SyncRuntime}
use rollforward.Runtime.Reconcile.{preview, retire, retire_client, close}
use rollforward.Runtime.Resolve.{
  remove_conflict, read_local, settle_deleted, settle_version, resolve_local, resolve_deleted,
  resolve_selected, resolve_remote, resolve_primary, stale, resolve_current, resolve_if_same,
  resolve_conflict, resolve,
}
use rollforward.Runtime.Rollback.{rollback_change, rollback_locked, rollback}
use rollforward.Runtime.Additive.{Additive, additive_rules}
use rollforward.Runtime.Additive.Runs.{Preserves-reconcile}

module _ {W : Type 0} (r : SyncRuntime W) {P : RuntimeState → Type 0} (add : Additive P) where
  Preserves-settle_deleted :
      (key : ResourceKey) (local : ReplicaState) (absent : String)
      (reason : LocalApplyResult → String) (parents : List String) (operation_id : String)
      → Preserves P (settle_deleted r key local absent reason parents operation_id)
  unfolding settle_deleted set_deleted_baseline
  Preserves-settle_deleted key local absent reason parents operation_id =
      search additive_rules depth 20

  Preserves-settle_version :
      (key : ResourceKey) (local : ReplicaState) (commit_id : String) (change : ResourceChange)
      (absent : String) (reason : LocalApplyResult → String) (parents : List String)
      (operation_id : String)
      → Preserves P (settle_version r key local commit_id change absent reason parents operation_id)
  unfolding settle_version set_present_baseline
  Preserves-settle_version key local commit_id change absent reason parents operation_id =
      search additive_rules depth 20

  Preserves-resolve_selected :
      (key : ResourceKey) (local : ReplicaState) (commit_id : String) (parents : List String)
      (operation_id : String) (change : ResourceChange)
      → Preserves P (resolve_selected r key local commit_id parents operation_id change)
  unfolding resolve_selected resolve_deleted
  Preserves-resolve_selected key local id parents operation_id ResourceChange.delete =
      search Preserves-settle_deleted
  Preserves-resolve_selected key local id parents operation_id (ResourceChange.text_delta delta) =
      search Preserves-settle_version
  Preserves-resolve_selected key local id parents operation_id
        (ResourceChange.binary_snapshot content_id size hashes) =
      search Preserves-settle_version

  Preserves-resolve_primary :
      (conflict : ConflictRecord) (local : ReplicaState) (parents : List String)
      (operation_id : String) (choice : VersionChoice)
      → Preserves P (resolve_primary r conflict local parents operation_id choice)
  unfolding resolve_primary resolve_local read_local resolve_deleted resolve_remote
      set_present_baseline
  Preserves-resolve_primary conflict local parents operation_id VersionChoice.local =
      search additive_rules depth 20
  Preserves-resolve_primary conflict local parents operation_id VersionChoice.delete =
      search Preserves-settle_deleted
  Preserves-resolve_primary conflict local parents operation_id (VersionChoice.remote id) =
      search (additive_rules, Preserves-resolve_selected) depth 20

  Preserves-resolve_conflict :
      (request : ResolveConflictRequest) (conflict : ConflictRecord)
      → Preserves P (resolve_conflict r request conflict)
  unfolding resolve_conflict resolve_if_same resolve_current stale remove_conflict
  Preserves-resolve_conflict request conflict =
      search (additive_rules, Preserves-for_each, Preserves-resolve_primary) depth 30

  pub Preserves-resolve : (request : ResolveConflictRequest) → Preserves P (resolve r request)
  unfolding resolve
  Preserves-resolve request =
      search (preserves_rules, Preserves-resolve_conflict, Preserves-reconcile) depth 20

  Preserves-rollback_change :
      (request : RollbackRequest) (local : ReplicaState) (parents : List String)
      (change : ResourceChange)
      → Preserves P (rollback_change r request local parents change)
  unfolding rollback_change
  Preserves-rollback_change request local parents ResourceChange.delete =
      search Preserves-settle_deleted
  Preserves-rollback_change request local parents (ResourceChange.text_delta delta) =
      search Preserves-settle_version
  Preserves-rollback_change request local parents (ResourceChange.binary_snapshot id size hashes) =
      search Preserves-settle_version

  pub Preserves-rollback : (request : RollbackRequest) → Preserves P (rollback r request)
  unfolding rollback rollback_locked
  Preserves-rollback request =
      search (additive_rules, Preserves-rollback_change, Preserves-reconcile) depth 20

  pub Preserves-preview : (request : SyncRequest) → Preserves P (preview r request)
  unfolding preview
  Preserves-preview request = record { at = λ m h. h }

  pub Preserves-retire_client : (client_id : String) → Preserves P (retire_client r client_id)
  unfolding retire_client retire
  Preserves-retire_client client_id = search additive_rules depth 20

  pub Preserves-close : Preserves P (close r)
  unfolding close
  Preserves-close = search preserves_rules
