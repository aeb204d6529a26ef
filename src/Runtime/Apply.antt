-- ===== src/Runtime/Apply.antt =====
-- The last loop of `execute` (src/runtime.rs): each operation of the plan is applied in a closure whose
-- error is counted, and the state is saved.
pub mod Accounts
pub mod Ends
use mathlib.Core.List.{foldl}
use rollforward.Prelude.{
  ℕ, ◌+◌, ◌%◌, ◌^◌, String, Bytes, Option, none, some, List, [], ◌∷◌, ◌++◌, map, ◌==◌, str, list_eq,
  nat_eq, option_eq, list_ord, nat_ord, if◌then◌else◌, length, take, unwrap_or, head?,
}
use rollforward.Collections.BTreeMap
use rollforward.Collections.BTreeMap.{BTreeMap}
use rollforward.Errors.{Result, ok, err, SyncError, io_error}
use rollforward.Types.{
  ResourceKey, text, ReplicaState, RemoteResourceState, ResourceChange, ChunkLocation,
  PlanOperation, LocalResource, LocalMutation, LocalApplyResult, applied, operation_key,
  version_token, local_content_id, remote_heads, remote_content_id, encoded, key_ord, kind_eq,
  apply_status_eq,
}
use rollforward.Text.Document.{full_update}
use rollforward.Runtime.State.{RuntimeState}
use rollforward.Runtime.Remote.{text_doc}
use rollforward.Runtime.Action.{
  Action, Progress, ◌>>=◌, get_state, modify, call, return, outcome, update_run, catch, for_each,
}
use rollforward.Runtime.Refresh.{incr}
use rollforward.Runtime.Codecs.{Detail, Scalar}
use rollforward.Runtime.Content.{content_for_remote}
use rollforward.Runtime.Plan.{precondition, set_present_baseline, set_deleted_baseline}
use rollforward.Runtime.Progress.{
  SyncRuntime, number, text_field, message, add_failure, event, emit_progress, save,
}

-- `into_iter().next().ok_or_else(..)`, and the test of the result's status.
unfoldable pub applied_result :
    String → (LocalApplyResult → String) → List LocalApplyResult → Result LocalApplyResult SyncError
applied_result absent reason [] = err (io_error absent)
applied_result absent reason (result ∷ _) =
    if result.status == applied then ok result else err (io_error (reason result))

-- The replica's reason, or else this one.
abbrev pub reason_or : String → LocalApplyResult → String
reason_or default result = unwrap_or default result.error

abbrev pub local_state : BTreeMap ResourceKey LocalResource → ResourceKey → ReplicaState
local_state local_by_key key = elim (BTreeMap.get key local_by_key) [
  | none ↦ ReplicaState.missing
  | some resource ↦ resource.state
]

-- The change of the first of the remote's heads.
unfoldable pub selected_change : RuntimeState → RemoteResourceState → Option ResourceChange
selected_change state remote = elim (head? (remote_heads remote)) [
  | none ↦ none
  | some head ↦ elim (BTreeMap.get head state.commits) [
    | none ↦ none
    | some commit ↦ some commit.change
  ]
]

-- The ranges and the bytes that come from each pack.
unfoldable pub add_location : BTreeMap String (ℕ × ℕ) → ChunkLocation → BTreeMap String (ℕ × ℕ)
add_location packs location =
    let (ranges, bytes) = unwrap_or (0, 0) (BTreeMap.get location.pack_id packs) in
    BTreeMap.insert location.pack_id (incr ranges, (bytes + location.length) % 2 ^ 64) packs

unfoldable pub pack_row : String × (ℕ × ℕ) → List (String × Scalar)
pack_row (id, (ranges, bytes)) =
    (str "pack", Scalar.string (take 12 id))
    ∷ (str "ranges", Scalar.number ranges)
    ∷ (str "bytes", Scalar.number bytes)
    ∷ []

-- `report.unchanged += 1`, and the like.
unfoldable pub count_unchanged : Progress → Progress
count_unchanged run = record run {
  report = record run.report { unchanged = incr run.report.unchanged };
}

unfoldable pub count_downloaded : Progress → Progress
count_downloaded run = record run {
  report = record run.report { downloaded = incr run.report.downloaded };
}

unfoldable pub count_deleted_local : Progress → Progress
count_deleted_local run = record run {
  report = record run.report { deleted_local = incr run.report.deleted_local };
}

unfoldable pub set_text_state : ResourceKey → Bytes → RuntimeState → RuntimeState
set_text_state key bytes state = record state {
  text_states = BTreeMap.insert (encoded key) bytes state.text_states;
}

unfoldable pub set_kind_text : ResourceKey → RuntimeState → RuntimeState
set_kind_text key state = record state { kinds = BTreeMap.insert (encoded key) text state.kinds }

module _ {W : Type 0} (r : SyncRuntime W) where
  -- One mutation, and its result if it was applied.
  unfoldable pub mutate :
      LocalMutation → String → (LocalApplyResult → String) → Action W LocalApplyResult
  unfolding applied_result
  mutate mutation absent reason =
      call (r.adapters.apply_mutations (mutation ∷ []))
      >>= (λ results. outcome (applied_result absent reason results))

  -- `state.text_states.insert(key.encoded(), state.text_doc(&key)?.full_update())`.
  unfoldable pub keep_document : ResourceKey → Action W Unit
  unfolding set_text_state
  keep_document key = do
    state ← get_state
    document ← outcome (text_doc r.yrs state key)
    modify (set_text_state key (full_update r.yrs document))

  module _ (run_id : String) (local_by_key : BTreeMap ResourceKey LocalResource) where
    -- What the download of a snapshot will fetch.
    unfoldable pub announce_download : ResourceKey → Option ResourceChange → Action W Unit
    unfolding add_location pack_row
    announce_download key (some (ResourceChange.binary_snapshot _ size chunk_hashes)) =
        call (r.adapters.lookup_chunks chunk_hashes) >>= (λ locations. emit_progress r (
          event r run_id (run_id ++ str ":download") (str "download.plan") (some key) (
            (str "bytes", number size)
            ∷ (str "chunks", number (length chunk_hashes))
            ∷ (str "packs", Detail.rows (map pack_row (foldl add_location [] locations)))
            ∷ [])))
    announce_download key (some (ResourceChange.text_delta _)) = return tt
    announce_download key (some ResourceChange.delete) = return tt
    announce_download key none = return tt

    -- A downloaded text is kept as a document too.
    unfoldable pub keep_text : ResourceKey → Option ResourceChange → Action W Unit
    unfolding keep_document set_kind_text
    keep_text key (some (ResourceChange.text_delta _)) =
        keep_document key >>= (λ _. modify (set_kind_text key))
    keep_text key (some (ResourceChange.binary_snapshot _ _ _)) = return tt
    keep_text key (some ResourceChange.delete) = return tt
    keep_text key none = return tt

    unfoldable pub download : ResourceKey → RemoteResourceState → Action W Unit
    unfolding announce_download keep_text mutate selected_change count_downloaded
    download key remote = do
      state ← get_state
      _ ← announce_download key (selected_change state remote)
      bytes ← content_for_remote r.adapters r.yrs state key none
      result ←
          mutate
            (LocalMutation.write_present key bytes (precondition (local_state local_by_key key)))
            (str "local replica returned no apply result")
            (reason_or (str "local precondition failed"))
      _ ← keep_text key (selected_change state remote)
      _ ← modify (
          set_present_baseline key (unwrap_or [] (remote_content_id remote))
            (unwrap_or [] result.version_token) (remote_heads remote) run_id)
      _ ← update_run count_downloaded
      emit_progress r (
          event r run_id (run_id ++ str ":download") (str "download.write") (some key)
            ((str "bytes", number (length bytes)) ∷ []))

    unfoldable pub delete_local : ResourceKey → ReplicaState → List String → Action W Unit
    unfolding mutate count_deleted_local
    delete_local key local heads = do
      _ ←
          mutate (LocalMutation.apply_delete key (precondition local))
            (str "local replica returned no delete result")
            (reason_or (str "local delete precondition failed"))
      _ ← modify (set_deleted_baseline key heads run_id)
      _ ← update_run count_deleted_local
      emit_progress r (event r run_id (run_id ++ str ":delete") (str "delete.apply") (some key) [])

    unfoldable pub establish : ResourceKey → ReplicaState → List String → Action W Unit
    unfolding keep_document count_unchanged
    establish key local heads = do
      state ← get_state
      _ ←
          if BTreeMap.get (encoded key) state.kinds == some text
          then keep_document key
          else return tt
      _ ← modify (
          set_present_baseline key (unwrap_or [] (local_content_id local))
            (unwrap_or [] (version_token local)) heads run_id)
      update_run count_unchanged

    -- The closure.
    unfoldable pub apply_operation : PlanOperation → Action W Unit
    unfolding establish download delete_local count_unchanged
    apply_operation (PlanOperation.noop key) = update_run count_unchanged
    apply_operation (PlanOperation.establish_baseline key local heads) = establish key local heads
    apply_operation (PlanOperation.establish_deleted_baseline key heads) =
        modify (set_deleted_baseline key heads run_id) >>= (λ _. update_run count_unchanged)
    apply_operation (PlanOperation.download key remote) = download key remote
    apply_operation (PlanOperation.apply_delete key local heads) = delete_local key local heads
    apply_operation (PlanOperation.upload _ _) = return tt
    apply_operation (PlanOperation.publish_delete _) = return tt
    apply_operation (PlanOperation.conflict _) = return tt

    unfoldable pub count_error : PlanOperation → SyncError → Action W Unit
    unfolding add_failure
    count_error operation e = do
      _ ← update_run (add_failure (operation_key operation).scope_id)
      emit_progress r (
          event r run_id run_id (str "error") (some (operation_key operation))
            ((str "error", text_field (message e)) ∷ []))

    unfoldable pub apply_one : PlanOperation → Action W Unit
    unfolding apply_operation count_error
    apply_one operation =
        catch (apply_operation operation) (count_error operation) >>= (λ _. save r)

    unfoldable pub apply_all : List PlanOperation → Action W Unit
    unfolding apply_one
    apply_all operations = for_each apply_one operations
