-- ===== src/Runtime/Execute.antt =====
-- `execute` (src/runtime.rs): the plan's conflicts are recorded, its uploads sent, and its other
-- operations applied one by one.
pub mod Listed
use mathlib.Core.List.{foldl}
use rollforward.Prelude.{
  ℕ, ◌+◌, String, not, Option, none, some, List, [], ◌∷◌, ◌++◌, map, str, decimal, list_eq, nat_eq,
  list_ord, nat_ord, length, filter, filter_map, contains,
}
use rollforward.Collections.BTreeMap
use rollforward.Collections.BTreeMap.{BTreeMap}
use rollforward.Types.{
  ResourceKey, ConflictKind, PlanOperation, SyncPlan, SyncRequest, SyncReport, LocalResource,
  ResourceAck, operation_key, key_ord,
}
use rollforward.Binary.{Pack, build_packs}
use rollforward.Runtime.State.{RuntimeState, RunJournal, OperationJournal, heads}
use rollforward.Runtime.Action.{
  Action, ◌>>=◌, get_state, modify, call, return, get_run, update_run, new_run,
}
use rollforward.Runtime.Publish.{missing_chunks}
use rollforward.Runtime.Plan.{is_conflict, report_scopes}
use rollforward.Runtime.Progress.{SyncRuntime, number, text_field, event, emit_progress, save}
use rollforward.Runtime.Apply.{apply_all}
use rollforward.Runtime.Upload.{
  nothing_prepared, is_upload, upload_key, content_map, insert_conflict, count_conflict,
  check_uploads,
}
use rollforward.Runtime.Upload.Batch.{commit_uploads}
use rollforward.Runtime.Upload.Settle.{send_batch}

-- `retain` of the conflicts in scopes that are not asked for.
unfoldable pub drop_conflicts : List String → RuntimeState → RuntimeState
drop_conflicts scopes state = record state {
  conflicts =
      BTreeMap.retain (λ conflict. not (contains scopes conflict.resource.scope_id))
        state.conflicts;
}

unfoldable pub decision : PlanOperation → String
decision (PlanOperation.noop _) = str "noop"
decision (PlanOperation.establish_baseline _ _ _) = str "establish_baseline"
decision (PlanOperation.establish_deleted_baseline _ _) = str "establish_deleted_baseline"
decision (PlanOperation.upload _ _) = str "upload"
decision (PlanOperation.download _ _) = str "download"
decision (PlanOperation.publish_delete _) = str "publish_delete"
decision (PlanOperation.apply_delete _ _ _) = str "apply_delete"
decision (PlanOperation.conflict _) = str "conflict"

-- `{:?}` of a kind.
unfoldable pub kind_name : ConflictKind → String
kind_name ConflictKind.initial_divergence = str "InitialDivergence"
kind_name ConflictKind.content_vs_content = str "ContentVsContent"
kind_name ConflictKind.delete_vs_modify = str "DeleteVsModify"
kind_name ConflictKind.modify_vs_delete = str "ModifyVsDelete"
kind_name ConflictKind.remote_fork = str "RemoteFork"
kind_name ConflictKind.precondition_failed = str "PreconditionFailed"

unfoldable pub operation_id : String → ℕ → String
operation_id run_id index = run_id ++ (str ":" ++ decimal index)

unfoldable pub journal_from : String → ℕ → List PlanOperation → List OperationJournal
unfolding operation_id
journal_from run_id index [] = []
journal_from run_id index (operation ∷ operations) =
    record { id = operation_id run_id index; key = operation_key operation; stage = str "planned" }
    ∷ journal_from run_id (index + 1) operations

unfoldable pub set_active_run : Option RunJournal → RuntimeState → RuntimeState
set_active_run run state = record state { active_run = run }

module _ {W : Type 0} (r : SyncRuntime W) (run_id : String) where
  unfoldable pub record_conflict : PlanOperation → Action W Unit
  unfolding kind_name
  record_conflict (PlanOperation.conflict c) = do
    _ ← modify (insert_conflict c)
    _ ← update_run count_conflict
    emit_progress r (
        event r run_id c.id (str "conflict") (some c.resource) (
          (str "kind", text_field (kind_name c.kind))
          ∷ (str "remote_heads", number (length c.remote_heads))
          ∷ []))
  record_conflict _ = return tt

  -- The body of the first loop.
  unfoldable pub announce : ℕ → PlanOperation → Action W Unit
  unfolding record_conflict decision
  announce index operation =
      let id = operation_id run_id index in
      let key = some (operation_key operation) in
      let decided = (str "decision", text_field (decision operation)) ∷ [] in
      emit_progress r (event r run_id id (str "resource.scan") key []) >>= (λ _.
        emit_progress r (event r run_id id (str "resource.compare") key decided) >>= (λ _.
          emit_progress r (event r run_id id (str "resource.decision") key decided)
          >>= (λ _. record_conflict operation)))

  unfoldable pub announce_all : ℕ → List PlanOperation → Action W Unit
  unfolding announce
  announce_all index [] = return tt
  announce_all index (operation ∷ operations) =
      announce index operation >>= (λ _. announce_all (index + 1) operations)

  -- An event that is sent only if there are uploads.
  unfoldable pub emit_upload : List PlanOperation → Action W Unit → Action W Unit
  emit_upload [] emitted = return tt
  emit_upload (_ ∷ _) emitted = emitted

  unfoldable pub prepare : List PlanOperation → Action W Unit
  unfolding emit_upload
  prepare uploads = emit_upload uploads (
      emit_progress r (
        event r run_id (run_id ++ str ":upload") (str "upload.prepare") none
          ((str "resources", number (length uploads)) ∷ [])))

  unfoldable pub announce_upload : List PlanOperation → List Pack → ℕ → Action W Unit
  unfolding emit_upload
  announce_upload uploads packs chunks = emit_upload uploads (
      emit_progress r (
        event r run_id (run_id ++ str ":upload") (str "upload.plan") none (
          (str "resources", number (length uploads))
          ∷ (str "packs", number (length packs))
          ∷ (str "bytes", number (foldl (λ n pack. n + length pack.bytes) 0 packs))
          ∷ (str "chunks", number chunks)
          ∷ [])))

  -- The uploads, from the reading of their contents to the saving of their baselines.
  unfoldable pub upload : List PlanOperation → BTreeMap ResourceKey LocalResource → Action W Unit
  unfolding prepare announce_upload
  upload uploads local_by_key = prepare uploads >>= (λ _.
      call (r.adapters.read_resources (filter_map upload_key uploads)) >>= (λ contents.
        check_uploads r run_id (content_map contents) uploads nothing_prepared >>= (λ p.
          call (r.adapters.lookup_chunks (map (λ chunk. chunk.0.hash) p.chunks)) >>= (λ located.
            let chunks = missing_chunks located p.chunks in
            let packs = build_packs r.hashing.blake3 chunks in
            announce_upload uploads packs (length chunks) >>= (λ _.
              commit_uploads r (content_map contents) p uploads p.manifests
              >>= (λ committed. send_batch r run_id local_by_key packs committed))))))

  unfoldable pub acknowledgement : RuntimeState → PlanOperation → ResourceAck
  acknowledgement state operation = record {
    client_id = r.client_id;
    resource = operation_key operation;
    observed_heads = heads state (operation_key operation);
    pinned_commits = [];
  }

  -- The acknowledgements, and the end of the run.
  unfoldable pub finish : List PlanOperation → Action W Unit
  unfolding acknowledgement set_active_run
  finish operations = do
    state ← get_state
    _ ← call (
        r.adapters.write_acknowledgements (
          map (acknowledgement state)
            (filter (λ operation. not (is_conflict operation)) operations)))
    _ ← modify (set_active_run none)
    save r

  unfoldable pub complete_run : SyncRequest → SyncPlan → Action W SyncReport
  complete_run request plan = do
    _ ← update_run (λ run. record run {
      report = record run.report { scopes = report_scopes request plan run.failures };
    })
    run ← get_run
    _ ← emit_progress r (
        event r run_id run_id (str "run.complete") none (
          (str "uploaded", number run.report.uploaded)
          ∷ (str "downloaded", number run.report.downloaded)
          ∷ (str "deleted_remote", number run.report.deleted_remote)
          ∷ (str "deleted_local", number run.report.deleted_local)
          ∷ (str "unchanged", number run.report.unchanged)
          ∷ (str "conflicts", number run.report.conflicts)
          ∷ (str "failures", number run.report.failures)
          ∷ []))
    return run.report

  unfoldable pub execute : SyncRequest → List LocalResource → SyncPlan → Action W SyncReport
  unfolding drop_conflicts announce_all journal_from set_active_run upload finish complete_run
  execute request local plan =
      let local_by_key = BTreeMap.from_list (map (λ resource. (resource.key, resource)) local) in
      update_run (λ _. new_run run_id) >>= (λ _.
        emit_progress r (
          event r run_id run_id (str "run.start") none (
            (str "scopes", number (length request.scopes))
            ∷ (str "local_resources", number (length local))
            ∷ (str "operations", number (length plan.operations))
            ∷ []))
        >>= (λ _. modify (drop_conflicts request.scopes) >>= (λ _.
            announce_all 0 plan.operations >>= (λ _.
              modify (
                set_active_run (
                  some
                    (record { id = run_id; operations = journal_from run_id 0 plan.operations })))
              >>= (λ _. save r >>= (λ _.
                  upload (filter is_upload plan.operations) local_by_key >>= (λ _.
                    apply_all r run_id local_by_key plan.operations
                    >>= (λ _. finish plan.operations >>= (λ _. complete_run request plan)))))))))
