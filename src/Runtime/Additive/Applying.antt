-- ===== src/Runtime/Additive/Applying.antt =====
-- The applying of a plan in `execute` (src/runtime.rs) preserves what a new commit keeps.
use rollforward.Prelude.{String, Option, none, some, List, list_eq, nat_eq, option_eq}
use rollforward.Collections.BTreeMap.{BTreeMap}
use rollforward.Types.{ResourceKey, ResourceChange, LocalResource, PlanOperation, key_eq}
use rollforward.Runtime.State.{RuntimeState}
use rollforward.Runtime.Action.Preserves.{Preserves, Preserves-for_each}
use rollforward.Runtime.Plan.{set_present_baseline, set_deleted_baseline}
use rollforward.Runtime.Progress.{SyncRuntime}
use rollforward.Runtime.Apply.{
  keep_document, set_text_state, set_kind_text, announce_download, keep_text, download,
  delete_local, establish, apply_operation, count_error, apply_one, apply_all,
}
use rollforward.Runtime.Additive.{Growing, additive_rules}

module _ {W : Type 0} (r : SyncRuntime W) {P : RuntimeState → Type 0} (grow : Growing P) where
  Preserves-keep_document : (key : ResourceKey) → Preserves P (keep_document r key)
  unfolding keep_document set_text_state
  Preserves-keep_document key = search additive_rules depth 20

  module _ (run_id : String) (local_by_key : BTreeMap ResourceKey LocalResource) where
    Preserves-announce_download :
        (key : ResourceKey) (change : Option ResourceChange)
        → Preserves P (announce_download r run_id local_by_key key change)
    unfolding announce_download
    Preserves-announce_download key (some (ResourceChange.binary_snapshot _ size hashes)) =
        search additive_rules depth 20
    Preserves-announce_download key (some (ResourceChange.text_delta _)) = search additive_rules
    Preserves-announce_download key (some ResourceChange.delete) = search additive_rules
    Preserves-announce_download key none = search additive_rules

    Preserves-keep_text :
        (key : ResourceKey) (change : Option ResourceChange)
        → Preserves P (keep_text r run_id local_by_key key change)
    unfolding keep_text set_kind_text
    Preserves-keep_text key (some (ResourceChange.text_delta _)) =
        search (additive_rules, Preserves-keep_document) depth 20
    Preserves-keep_text key (some (ResourceChange.binary_snapshot _ size hashes)) =
        search additive_rules
    Preserves-keep_text key (some ResourceChange.delete) = search additive_rules
    Preserves-keep_text key none = search additive_rules

    Preserves-apply_operation :
        (operation : PlanOperation) → Preserves P (apply_operation r run_id local_by_key operation)
    unfolding apply_operation establish download delete_local set_present_baseline
        set_deleted_baseline
    Preserves-apply_operation (PlanOperation.noop key) = search additive_rules
    Preserves-apply_operation (PlanOperation.establish_baseline key local heads) =
        search (additive_rules, Preserves-keep_document) depth 20
    Preserves-apply_operation (PlanOperation.establish_deleted_baseline key heads) =
        search additive_rules depth 20
    Preserves-apply_operation (PlanOperation.download key remote) =
        search (additive_rules, Preserves-announce_download, Preserves-keep_text) depth 20
    Preserves-apply_operation (PlanOperation.apply_delete key local heads) =
        search additive_rules depth 20
    Preserves-apply_operation (PlanOperation.upload key local) = search additive_rules
    Preserves-apply_operation (PlanOperation.publish_delete key) = search additive_rules
    Preserves-apply_operation (PlanOperation.conflict c) = search additive_rules

    Preserves-apply_one :
        (operation : PlanOperation) → Preserves P (apply_one r run_id local_by_key operation)
    unfolding apply_one count_error
    Preserves-apply_one operation = search (additive_rules, Preserves-apply_operation) depth 20

    pub Preserves-apply_all :
        (operations : List PlanOperation) → Preserves P (apply_all r run_id local_by_key operations)
    unfolding apply_all
    Preserves-apply_all operations = search (Preserves-for_each, Preserves-apply_one)
