-- ===== src/Runtime/Additive/Uploads.antt =====
-- The uploads of `execute` (src/runtime.rs) preserve what a new commit keeps.
use rollforward.Prelude.{
  ℕ, String, Bytes, Option, none, some, List, [], ◌∷◌, list_eq, nat_eq, option_eq,
}
use rollforward.Collections.BTreeMap.{BTreeMap}
use rollforward.Types.{
  ResourceKey, ReplicaState, ResourceChange, ResourceContent, LocalResource, LocalApplyResult,
  PlanOperation, CommitBatch,
}
use rollforward.Binary.{Pack}
use rollforward.Runtime.State.{RuntimeState}
use rollforward.Runtime.Action.{TextMergeResult, TextMergePolicy}
use rollforward.Runtime.Action.Preserves.{Preserves, Preserves-for_each}
use rollforward.Runtime.Plan.{set_present_baseline, set_deleted_baseline}
use rollforward.Runtime.Progress.{SyncRuntime}
use rollforward.Runtime.Apply.{set_text_state}
use rollforward.Runtime.Upload.{
  Prepared, merge_conflict, merged, merge_upload, fail_upload, check_policy, check_content,
  check_upload, check_uploads,
}
use rollforward.Runtime.Upload.Batch.{Committed, commit_change, commit_uploads}
use rollforward.Runtime.Upload.Settle.{
  settle_snapshot, settle_written, settle_text, settle_change, settle, send, send_batch,
}
use rollforward.Runtime.Additive.{Growing, additive_rules}

module _ {W : Type 0} (r : SyncRuntime W) {P : RuntimeState → Type 0} (grow : Growing P) where
  module _ (run_id : String) where
    Preserves-merged :
        (key : ResourceKey) (local : ReplicaState) (content : ResourceContent) (p : Prepared)
        (result : TextMergeResult)
        → Preserves P (merged r run_id key local content p result)
    unfolding merged merge_conflict
    Preserves-merged key local content p TextMergeResult.not_handled = search additive_rules
    Preserves-merged key local content p (TextMergeResult.merged bytes) = search additive_rules
    Preserves-merged key local content p (TextMergeResult.conflict reason) =
        search additive_rules depth 20

    Preserves-merge_upload :
        (policy : TextMergePolicy) (key : ResourceKey) (local : ReplicaState)
        (content : ResourceContent) (p : Prepared) (base : Option Bytes)
        → Preserves P (merge_upload r run_id policy key local content p base)
    unfolding merge_upload
    Preserves-merge_upload policy key local content p none = search additive_rules
    Preserves-merge_upload policy key local content p (some full) =
        search (additive_rules, Preserves-merged) depth 20

    Preserves-check_policy :
        (policy : Option TextMergePolicy) (key : ResourceKey) (local : ReplicaState)
        (content : ResourceContent) (p : Prepared)
        → Preserves P (check_policy r run_id policy key local content p)
    unfolding check_policy
    Preserves-check_policy none key local content p = search additive_rules
    Preserves-check_policy (some policy) key local content p =
        search (additive_rules, Preserves-merge_upload)

    Preserves-check_content :
        (key : ResourceKey) (local : ReplicaState) (content : Option ResourceContent) (p : Prepared)
        → Preserves P (check_content r run_id key local content p)
    unfolding check_content fail_upload
    Preserves-check_content key local none p = search additive_rules depth 20
    Preserves-check_content key local (some content) p =
        search (additive_rules, Preserves-check_policy) depth 20

    Preserves-check_upload :
        (contents : BTreeMap ResourceKey ResourceContent) (operation : PlanOperation) (p : Prepared)
        → Preserves P (check_upload r run_id contents operation p)
    unfolding check_upload
    Preserves-check_upload contents (PlanOperation.upload key local) p =
        search (additive_rules, Preserves-check_content)
    Preserves-check_upload contents (PlanOperation.noop key) p = search additive_rules
    Preserves-check_upload contents (PlanOperation.establish_baseline key local heads) p =
        search additive_rules
    Preserves-check_upload contents (PlanOperation.establish_deleted_baseline key heads) p =
        search additive_rules
    Preserves-check_upload contents (PlanOperation.download key remote) p = search additive_rules
    Preserves-check_upload contents (PlanOperation.publish_delete key) p = search additive_rules
    Preserves-check_upload contents (PlanOperation.apply_delete key local heads) p =
        search additive_rules
    Preserves-check_upload contents (PlanOperation.conflict c) p = search additive_rules

    pub Preserves-check_uploads :
        (contents : BTreeMap ResourceKey ResourceContent) (operations : List PlanOperation)
        (p : Prepared)
        → Preserves P (check_uploads r run_id contents operations p)
    unfolding check_uploads
    Preserves-check_uploads contents [] p = search additive_rules
    Preserves-check_uploads contents (operation ∷ operations) p =
        search (additive_rules, Preserves-check_upload, Preserves-check_uploads contents operations)

  Preserves-commit_change :
      (key : ResourceKey) (parents : List String) (counter : ℕ) (change : Option ResourceChange)
      → Preserves P (commit_change r key parents counter change)
  unfolding commit_change
  Preserves-commit_change key parents counter none = search additive_rules
  Preserves-commit_change key parents counter (some change) = search additive_rules

  pub Preserves-commit_uploads :
      (contents : BTreeMap ResourceKey ResourceContent) (p : Prepared)
      (operations : List PlanOperation) (manifests : BTreeMap ResourceKey (List String))
      → Preserves P (commit_uploads r contents p operations manifests)
  unfolding commit_uploads
  Preserves-commit_uploads contents p [] manifests = search additive_rules
  Preserves-commit_uploads contents p (operation ∷ operations) manifests =
      search
        (additive_rules, Preserves-commit_change, Preserves-commit_uploads contents p operations)
        depth 20

  module _ (run_id : String) (local_by_key : BTreeMap ResourceKey LocalResource) where
    Preserves-settle_written :
        (key : ResourceKey) (document : r.yrs.Doc) (heads : List String)
        (results : List LocalApplyResult)
        → Preserves P (settle_written r run_id local_by_key key document heads results)
    unfolding settle_written set_text_state set_present_baseline
    Preserves-settle_written key document heads [] = search additive_rules
    Preserves-settle_written key document heads (result ∷ results) = search additive_rules depth 20

    Preserves-settle_change :
        (key : ResourceKey) (heads : List String) (change : ResourceChange)
        → Preserves P (settle_change r run_id local_by_key key heads change)
    unfolding settle_change settle_snapshot settle_text set_present_baseline set_deleted_baseline
    Preserves-settle_change key heads ResourceChange.delete = search additive_rules depth 20
    Preserves-settle_change key heads (ResourceChange.binary_snapshot content_id size hashes) =
        search additive_rules depth 20
    Preserves-settle_change key heads (ResourceChange.text_delta delta) =
        search (additive_rules, Preserves-settle_written) depth 20

    Preserves-settle : (c : Committed) → Preserves P (settle r run_id local_by_key c)
    unfolding settle
    Preserves-settle c = search (additive_rules, Preserves-settle_change) depth 20

    Preserves-send :
        (committed : List Committed) (batch : CommitBatch)
        → Preserves P (send r run_id local_by_key committed batch)
    unfolding send
    Preserves-send committed batch =
        search (additive_rules, Preserves-for_each, Preserves-settle) depth 20

    pub Preserves-send_batch :
        (packs : List Pack) (committed : List Committed)
        → Preserves P (send_batch r run_id local_by_key packs committed)
    unfolding send_batch
    Preserves-send_batch [] [] = search additive_rules
    Preserves-send_batch [] (c ∷ committed) = search Preserves-send
    Preserves-send_batch (pack ∷ packs) committed = search Preserves-send
