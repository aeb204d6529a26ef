-- ===== src/Runtime/Upload/Settle.antt =====
-- What `execute` (src/runtime.rs) does once the remote has the batch: each commit is recorded, and its
-- resource's baseline set.
use rollforward.Prelude.{
  ℕ, String, none, some, List, [], ◌∷◌, ◌++◌, ◌==◌, str, list_eq, nat_eq, list_ord, nat_ord,
  if◌then◌else◌, length, unwrap_or,
}
use mathlib.Core.List.{foldl}
use rollforward.Prelude.{◌+◌}
use rollforward.Collections.BTreeMap
use rollforward.Collections.BTreeMap.{BTreeMap}
use rollforward.Types.{
  ResourceKey, ResourceChange, CommitBatch, PackObject, LocalResource, LocalMutation,
  LocalApplyResult, applied, version_token, key_ord, apply_status_eq,
}
use rollforward.Binary.{Pack}
use rollforward.Text.Utf8.{as_bytes}
use rollforward.Text.Document.{full_update}
use rollforward.Runtime.State.{heads, record_commit}
use rollforward.Runtime.Remote.{text_doc}
use rollforward.Runtime.Action.{
  Action, Progress, ◌>>=◌, get_state, modify, call, return, outcome, update_run, for_each,
}
use rollforward.Runtime.Refresh.{incr}
use rollforward.Runtime.Plan.{precondition, set_present_baseline, set_deleted_baseline}
use rollforward.Runtime.Progress.{SyncRuntime, number, text_field, event, emit_progress, save}
use rollforward.Runtime.Apply.{set_text_state}
use rollforward.Runtime.Upload.Changes.{indexed}
use rollforward.Runtime.Upload.Batch.{Committed, upload_batch}

unfoldable pub count_deleted_remote : Progress → Progress
count_deleted_remote run = record run {
  report = record run.report { deleted_remote = incr run.report.deleted_remote };
}

unfoldable pub count_uploaded : Progress → Progress
count_uploaded run = record run {
  report = record run.report { uploaded = incr run.report.uploaded };
}

-- `map(|pack| pack.data.len() as u64).sum()`.
abbrev pub total_bytes : List PackObject → ℕ
total_bytes packs = foldl (λ n pack. n + length pack.bytes) 0 packs

module _ {W : Type 0} (r : SyncRuntime W) (run_id : String)
    (local_by_key : BTreeMap ResourceKey LocalResource) where
  unfoldable pub settle_snapshot : ResourceKey → String → List String → Action W Unit
  unfolding count_uploaded
  settle_snapshot key content_id heads = do
    resource ← outcome (indexed (BTreeMap.get key local_by_key))
    _ ← modify (
        set_present_baseline key content_id (unwrap_or [] (version_token resource.state)) heads
          run_id)
    update_run count_uploaded

  -- The merged text, where the replica has taken it.
  unfoldable pub settle_written :
      ResourceKey → r.yrs.Doc → List String → List LocalApplyResult → Action W Unit
  unfolding count_uploaded set_text_state
  settle_written key document heads [] = return tt
  settle_written key document heads (result ∷ _) =
      let written : Action W Unit =
        modify (set_text_state key (full_update r.yrs document)) >>= (λ _.
          modify (
            set_present_baseline key (r.hashing.blake3 (as_bytes (r.yrs.get_string document)))
              (unwrap_or [] result.version_token) heads run_id)
          >>= (λ _. update_run count_uploaded)) in
      if result.status == applied then written else return tt

  unfoldable pub settle_text : ResourceKey → List String → Action W Unit
  unfolding settle_written
  settle_text key heads = do
    state ← get_state
    document ← outcome (text_doc r.yrs state key)
    current ← outcome (indexed (BTreeMap.get key local_by_key))
    results ← call (
        r.adapters.apply_mutations (
          LocalMutation.write_present key (as_bytes (r.yrs.get_string document))
            (precondition current.state)
          ∷ []))
    settle_written key document heads results

  unfoldable pub settle_change : ResourceKey → List String → ResourceChange → Action W Unit
  unfolding settle_snapshot settle_text count_deleted_remote
  settle_change key heads ResourceChange.delete =
      modify (set_deleted_baseline key heads run_id) >>= (λ _. update_run count_deleted_remote)
  settle_change key heads (ResourceChange.binary_snapshot content_id _ _) =
      settle_snapshot key content_id heads
  settle_change key heads (ResourceChange.text_delta _) = settle_text key heads

  unfoldable pub settle : Committed → Action W Unit
  unfolding settle_change
  settle (key, commit) = do
    _ ← modify (record_commit commit)
    _ ← emit_progress r (
        event r run_id commit.id (str "commit.catalog") (some key) (
          (str "commit", text_field commit.id)
          ∷ (str "parents", number (length commit.parents))
          ∷ []))
    state ← get_state
    settle_change key (heads state key) commit.change

  -- The batch is sent, unless it is empty.
  unfoldable pub send : List Committed → CommitBatch → Action W Unit
  unfolding settle
  send committed batch = do
    _ ← emit_progress r (
        event r run_id (run_id ++ str ":upload") (str "upload.transfer") none (
          (str "commits", number (length batch.commits))
          ∷ (str "packs", number (length batch.packs))
          ∷ (str "bytes", number (total_bytes batch.packs))
          ∷ []))
    _ ← call (r.adapters.commit_batch batch)
    _ ← for_each settle committed
    save r

  unfoldable pub send_batch : List Pack → List Committed → Action W Unit
  unfolding send
  send_batch [] [] = return tt
  send_batch [] (c ∷ committed) = send (c ∷ committed) (upload_batch r [] (c ∷ committed))
  send_batch (pack ∷ packs) committed = send committed (upload_batch r (pack ∷ packs) committed)
