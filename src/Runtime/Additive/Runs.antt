-- ===== src/Runtime/Additive/Runs.antt =====
-- `execute` and `reconcile` (src/runtime.rs) preserve what a new commit keeps.
use rollforward.Prelude.{ℕ, ◌+◌, String, ◌≡◌, refl, Option, none, some, List, [], ◌∷◌}
use rollforward.Collections.BTreeMap.{BTreeMap}
use rollforward.Types.{ResourceKey, LocalResource, PlanOperation, SyncRequest, SyncPlan}
use rollforward.Runtime.State.{RuntimeState, RunJournal}
use rollforward.Runtime.Action.{Action, modify}
use rollforward.Runtime.Action.Preserves.{Preserves, Preserves-bind, preserves_rules}
use rollforward.Runtime.Progress.{SyncRuntime}
use rollforward.Runtime.Execute.{
  drop_conflicts, set_active_run, record_conflict, announce, announce_all, emit_upload, prepare,
  announce_upload, upload, finish, complete_run, execute,
}
use rollforward.Runtime.Reconcile.{
  plan_state, emit_stage, emit_recovery, scan, insert_kind, insert_kinds, reconcile_run, reconcile,
}
use rollforward.Runtime.Additive.{Growing, Additive, Preserves-elsewhere, additive_rules}
use rollforward.Runtime.Additive.Applying.{Preserves-apply_all}
use rollforward.Runtime.Additive.Uploads.{
  Preserves-check_uploads, Preserves-commit_uploads, Preserves-send_batch,
}

commits-insert_kinds :
    (local : List LocalResource) (s : RuntimeState) → (insert_kinds local s).commits ≡ s.commits
unfolding insert_kinds insert_kind
commits-insert_kinds [] s = refl
commits-insert_kinds (resource ∷ local) s = commits-insert_kinds local (insert_kind s resource)

module _ {W : Type 0} (r : SyncRuntime W) {P : RuntimeState → Type 0} (grow : Growing P) where
  module _ (run_id : String) where
    Preserves-record_conflict :
        (operation : PlanOperation) → Preserves P (record_conflict r run_id operation)
    unfolding record_conflict
    Preserves-record_conflict (PlanOperation.conflict c) = search additive_rules depth 20
    Preserves-record_conflict (PlanOperation.noop key) = search additive_rules
    Preserves-record_conflict (PlanOperation.establish_baseline key local heads) =
        search additive_rules
    Preserves-record_conflict (PlanOperation.establish_deleted_baseline key heads) =
        search additive_rules
    Preserves-record_conflict (PlanOperation.download key remote) = search additive_rules
    Preserves-record_conflict (PlanOperation.upload key local) = search additive_rules
    Preserves-record_conflict (PlanOperation.publish_delete key) = search additive_rules
    Preserves-record_conflict (PlanOperation.apply_delete key local heads) = search additive_rules

    Preserves-announce :
        (index : ℕ) (operation : PlanOperation) → Preserves P (announce r run_id index operation)
    unfolding announce
    Preserves-announce index operation = search (additive_rules, Preserves-record_conflict) depth 20

    pub Preserves-announce_all :
        (index : ℕ) (operations : List PlanOperation)
        → Preserves P (announce_all r run_id index operations)
    unfolding announce_all
    Preserves-announce_all index [] = search additive_rules
    Preserves-announce_all index (operation ∷ operations) =
        Preserves-bind (announce r run_id index operation) _ (Preserves-announce index operation)
          (λ _. Preserves-announce_all (index + 1) operations)

    Preserves-emit_upload :
        (uploads : List PlanOperation) (emitted : Action W Unit)
        → Preserves P emitted
        → Preserves P (emit_upload r run_id uploads emitted)
    unfolding emit_upload
    Preserves-emit_upload [] emitted h = search additive_rules
    Preserves-emit_upload (operation ∷ uploads) emitted h = h

    pub Preserves-upload :
        (uploads : List PlanOperation) (local_by_key : BTreeMap ResourceKey LocalResource)
        → Preserves P (upload r run_id uploads local_by_key)
    unfolding upload prepare announce_upload
    Preserves-upload uploads local_by_key =
        search
          (
            additive_rules, Preserves-emit_upload, Preserves-check_uploads,
            Preserves-commit_uploads, Preserves-send_batch,
          )
          depth 30

module _ {W : Type 0} (r : SyncRuntime W) {P : RuntimeState → Type 0} (add : Additive P) where
  module _ (run_id : String) where
    pub Preserves-execute :
        (request : SyncRequest) (local : List LocalResource) (plan : SyncPlan)
        → Preserves P (execute r run_id request local plan)
    unfolding execute drop_conflicts set_active_run finish complete_run
    Preserves-execute request local plan =
        search (additive_rules, Preserves-announce_all, Preserves-upload, Preserves-apply_all) depth
          40

    Preserves-emit_recovery :
        (previous : Option RunJournal) → Preserves P (emit_recovery r run_id previous)
    unfolding emit_recovery
    Preserves-emit_recovery none = search additive_rules
    Preserves-emit_recovery (some previous) = search additive_rules

    Preserves-scan : (request : SyncRequest) → Preserves P (scan r run_id request)
    unfolding scan emit_stage
    Preserves-scan request = search additive_rules depth 30

    Preserves-insert_kinds :
        (local : List LocalResource) → Preserves {W = W} P (modify (insert_kinds local))
    Preserves-insert_kinds local =
        Preserves-elsewhere add (insert_kinds local) (commits-insert_kinds local)

    Preserves-reconcile_run : (request : SyncRequest) → Preserves P (reconcile_run r run_id request)
    unfolding reconcile_run plan_state emit_stage set_active_run
    Preserves-reconcile_run request =
        search
          (
            additive_rules, Preserves-scan, Preserves-insert_kinds, Preserves-emit_recovery,
            Preserves-execute,
          )
          depth 30

  pub Preserves-reconcile : (request : SyncRequest) → Preserves P (reconcile r request)
  unfolding reconcile
  Preserves-reconcile request = search (preserves_rules, Preserves-reconcile_run)
