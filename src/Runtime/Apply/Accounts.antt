-- ===== src/Runtime/Apply/Accounts.antt =====
-- What the last loop of `execute` (src/runtime.rs) does to the baselines and to the report, whatever
-- the adapters answer.
use rollforward.Prelude.{
  ℕ, ◌+◌, ◌%◌, ◌^◌, String, Bool, true, false, ◌≡◌, ◌≢◌, refl, Option, none, some, List, arith,
  list_ord, nat_ord,
}
use rollforward.Collections.BTreeMap
use rollforward.Collections.BTreeMap.{BTreeMap}
use rollforward.Collections.BTreeMap.Laws.{get-insert_ne}
use rollforward.Types.{
  ResourceKey, ResourceChange, LocalResource, LocalMutation, LocalApplyResult, PlanOperation,
  EngineEvent, operation_key, encoded,
}
use rollforward.Runtime.State.{RuntimeState, StoredBaseline}
use rollforward.Runtime.Action.{Machine, Progress, ◌>>=◌, modify, update_run, notify, continue}
use rollforward.Runtime.Action.Outcomes.{
  Quiet, Steps, Stepped, Worldless, Quiet-modify, Steps-bind, quiet_rules,
}
use rollforward.Runtime.Content.{content_of, read_chunks, content_for_remote}
use rollforward.Runtime.Plan.{set_baseline, set_present_baseline, set_deleted_baseline}
use rollforward.Runtime.Progress.{SyncRuntime, emit, emit_progress}
use rollforward.Runtime.Apply.{
  mutate, keep_document, set_text_state, set_kind_text, announce_download, keep_text, download,
  delete_local, establish, apply_operation, count_unchanged, count_downloaded, count_deleted_local,
}

-- The operations that the loop counts: a conflict is counted where it is recorded, and an upload or a
-- published deletion where it is sent.
abbrev pub is_applied : PlanOperation → Bool
is_applied (PlanOperation.upload _ _) = false
is_applied (PlanOperation.publish_delete _) = false
is_applied (PlanOperation.conflict _) = false
is_applied _ = true

-- The operations that a report counts as unchanged, downloaded, deleted or failed.
abbrev pub accounted : Progress → ℕ
accounted run =
    (run.report.unchanged + run.report.downloaded + run.report.deleted_local + run.report.failures)
    % 2 ^ 64

abbrev pub View : Type 0
View = BTreeMap String StoredBaseline × ℕ

abbrev pub books : {W : Type 0} → Machine W → View
books m = (m.state.baselines, accounted m.run)

-- One operation more is accounted for, and no baseline but the resource's is touched.
abbrev pub Accounted : ResourceKey → View → View → Type 0
Accounted key (old, n) (new, k) =
    ((j : String) → encoded key ≢ j → BTreeMap.get j new ≡ BTreeMap.get j old)
    × (k ≡ (n + 1) % 2 ^ 64)

books-Worldless : {W : Type 0} → Worldless {W = W} books
books-Worldless = record { same = λ m w. refl }

set_baseline-others :
    (key : ResourceKey) (entry : StoredBaseline) (m : BTreeMap String StoredBaseline) (j : String)
    → encoded key ≢ j
    → BTreeMap.get j (BTreeMap.insert (encoded key) entry m) ≡ BTreeMap.get j m
set_baseline-others key entry m j n = get-insert_ne (encoded key) j entry m n

module _ {W : Type 0} (r : SyncRuntime W) where
  Quiet-emit_progress : (e : EngineEvent) → Quiet books (emit_progress r e)
  unfolding emit_progress emit ◌>>=◌ continue notify update_run
  Quiet-emit_progress e = record { at = λ m. refl }

  Quiet-mutate :
      (mutation : LocalMutation) (absent : String) (reason : LocalApplyResult → String)
      → Quiet books (mutate r mutation absent reason)
  unfolding mutate
  Quiet-mutate mutation absent reason = search (quiet_rules, books-Worldless)

  Quiet-keep_document : (key : ResourceKey) → Quiet books (keep_document r key)
  unfolding keep_document set_text_state
  Quiet-keep_document key = search (quiet_rules, Quiet-modify) depth 20

  Quiet-content_of :
      (state : RuntimeState) (key : ResourceKey) (head : String) (change : ResourceChange)
      → Quiet books (content_of r.adapters r.yrs state key head change)
  unfolding content_of read_chunks
  Quiet-content_of state key head ResourceChange.delete = search quiet_rules
  Quiet-content_of state key head (ResourceChange.text_delta _) = search quiet_rules
  Quiet-content_of state key head (ResourceChange.binary_snapshot _ _ hashes) =
      search (quiet_rules, books-Worldless) depth 20

  Quiet-content_for_remote :
      (state : RuntimeState) (key : ResourceKey) (selected : Option String)
      → Quiet books (content_for_remote r.adapters r.yrs state key selected)
  unfolding content_for_remote
  Quiet-content_for_remote state key selected = search (quiet_rules, Quiet-content_of) depth 20

  module _ (run_id : String) (local_by_key : BTreeMap ResourceKey LocalResource) where
    Quiet-announce_download :
        (key : ResourceKey) (change : Option ResourceChange)
        → Quiet books (announce_download r run_id local_by_key key change)
    unfolding announce_download
    Quiet-announce_download key (some (ResourceChange.binary_snapshot _ size hashes)) =
        search (quiet_rules, books-Worldless, Quiet-emit_progress) depth 20
    Quiet-announce_download key (some (ResourceChange.text_delta _)) = search quiet_rules
    Quiet-announce_download key (some ResourceChange.delete) = search quiet_rules
    Quiet-announce_download key none = search quiet_rules

    Quiet-keep_text :
        (key : ResourceKey) (change : Option ResourceChange)
        → Quiet books (keep_text r run_id local_by_key key change)
    unfolding keep_text set_kind_text
    Quiet-keep_text key (some (ResourceChange.text_delta _)) =
        search (quiet_rules, Quiet-keep_document, Quiet-modify) depth 20
    Quiet-keep_text key (some (ResourceChange.binary_snapshot _ size hashes)) = search quiet_rules
    Quiet-keep_text key (some ResourceChange.delete) = search quiet_rules
    Quiet-keep_text key none = search quiet_rules

  -- The end of an operation: its baseline, its count and its event.
  Steps-downloaded :
      (key : ResourceKey) (content_id version : String) (heads : List String) (id : String)
      (e : EngineEvent)
      → Steps books (Accounted key) (
          modify (set_present_baseline key content_id version heads id)
          >>= (λ _. update_run count_downloaded >>= (λ _. emit_progress r e)))
  unfolding set_present_baseline set_baseline count_downloaded emit_progress emit ◌>>=◌ continue
      notify update_run modify
  Steps-downloaded key content_id version heads id e = record {
    at = λ m. (set_baseline-others key _ m.state.baselines, omega arith);
  }

  Steps-deleted :
      (key : ResourceKey) (heads : List String) (id : String) (e : EngineEvent)
      → Steps books (Accounted key) (
          modify (set_deleted_baseline key heads id)
          >>= (λ _. update_run count_deleted_local >>= (λ _. emit_progress r e)))
  unfolding set_deleted_baseline set_baseline count_deleted_local emit_progress emit ◌>>=◌ continue
      notify update_run modify
  Steps-deleted key heads id e = record {
    at = λ m. (set_baseline-others key _ m.state.baselines, omega arith);
  }

-- The count alone.
Steps-unchanged :
    {W : Type 0} (key : ResourceKey)
    → Steps {W = W} books (Accounted key) (update_run count_unchanged)
unfolding update_run count_unchanged
Steps-unchanged key = record { at = λ m. (λ j n. refl, omega arith) }

Steps-established :
    {W : Type 0} (key : ResourceKey) (content_id version : String) (heads : List String)
    (id : String)
    → Steps {W = W} books (Accounted key) (
        modify (set_present_baseline key content_id version heads id)
        >>= (λ _. update_run count_unchanged))
unfolding set_present_baseline set_baseline count_unchanged ◌>>=◌ continue update_run modify
Steps-established key content_id version heads id = record {
  at = λ m. (set_baseline-others key _ m.state.baselines, omega arith);
}

Steps-established_deleted :
    {W : Type 0} (key : ResourceKey) (heads : List String) (id : String)
    → Steps {W = W} books
        (Accounted key)
        (modify (set_deleted_baseline key heads id) >>= (λ _. update_run count_unchanged))
unfolding set_deleted_baseline set_baseline count_unchanged ◌>>=◌ continue update_run modify
Steps-established_deleted key heads id = record {
  at = λ m. (set_baseline-others key _ m.state.baselines, omega arith);
}

module _ {W : Type 0} (r : SyncRuntime W) (run_id : String)
    (local_by_key : BTreeMap ResourceKey LocalResource) where
  Steps-apply_operation :
      (operation : PlanOperation)
      → is_applied operation ≡ true
      → Steps books
          (Accounted (operation_key operation))
          (apply_operation r run_id local_by_key operation)
  unfolding apply_operation establish download delete_local
  Steps-apply_operation (PlanOperation.noop key) h = Steps-unchanged key
  Steps-apply_operation (PlanOperation.establish_baseline key local heads) h =
      search (Steps-bind, Steps-established, quiet_rules, Quiet-keep_document) depth 20
  Steps-apply_operation (PlanOperation.establish_deleted_baseline key heads) h =
      Steps-established_deleted key heads run_id
  Steps-apply_operation (PlanOperation.download key remote) h =
      search
        (
          Steps-bind, Steps-downloaded, quiet_rules, Quiet-announce_download, Quiet-keep_text,
          Quiet-mutate, Quiet-content_for_remote,
        )
        depth 20
  Steps-apply_operation (PlanOperation.apply_delete key local heads) h =
      search (Steps-bind, Steps-deleted, Quiet-mutate) depth 20
  Steps-apply_operation (PlanOperation.upload key local) h = absurd (ground (arith, h))
  Steps-apply_operation (PlanOperation.publish_delete key) h = absurd (ground (arith, h))
  Steps-apply_operation (PlanOperation.conflict c) h = absurd (ground (arith, h))

  -- Of the operations that the loop applies, which are all but uploads, published deletions and
  -- conflicts: however it ends, one touches no other resource's baseline. Where it fails, it
  -- touches no baseline and is not counted; where it succeeds, it is counted once.
  pub apply_operation-Stepped :
      (operation : PlanOperation) (m : Machine W)
      → is_applied operation ≡ true
      → Stepped books
          (Accounted (operation_key operation))
          m
          (apply_operation r run_id local_by_key operation m)
  apply_operation-Stepped operation m h = (Steps-apply_operation operation h).at m
