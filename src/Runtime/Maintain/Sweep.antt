-- ===== src/Runtime/Maintain/Sweep.antt =====
-- The rest of `maintain` (src/runtime.rs): the catalogs are compacted, and the packs without a live
-- chunk deleted.
use mathlib.Core.List.{foldl}
use rollforward.Prelude.{
  ℕ, zero, suc, String, not, ◌&&◌, List, [], ◌∷◌, ◌++◌, map, ◌==◌, list_eq, nat_eq, list_ord,
  nat_ord, length, filter, contains,
}
use rollforward.Collections.BTreeMap
use rollforward.Collections.BTreeMap.{BTreeMap, values}
use rollforward.Collections.BTreeSet
use rollforward.Types.{
  Commit, ResourceChange, CatalogCompaction, MaintenanceRequest, V2MaintenanceReport,
}
use rollforward.Runtime.State.{RuntimeState, remote_keys}
use rollforward.Runtime.Action.{Action, ◌>>=◌, get_state, read_world, modify, call, return}
use rollforward.Runtime.Refresh.{incr, event_of, refresh_remote}
use rollforward.Runtime.Snapshots.{snapshot_generation}
use rollforward.Runtime.Progress.{SyncRuntime, save}
use rollforward.Runtime.Maintain.{no_report, maintain_keys}

-- The snapshot of what stays of a scope.
unfoldable pub compaction : ℕ → RuntimeState → String → List String → CatalogCompaction
compaction generation state scope obsolete = record {
  snapshot = record {
    generation = generation;
    scope_id = scope;
    events = map event_of (
        filter (λ commit. (commit.resource.scope_id == scope) && not (contains obsolete commit.id))
          (values state.commits));
    cursors = filter (λ cursor. cursor.scope_id == scope) state.cursors;
  };
  obsolete_commit_ids = obsolete;
}

-- `state.commits.remove(id)` for each id.
unfoldable pub remove_commits : List String → RuntimeState → RuntimeState
remove_commits ids state = record state {
  commits = foldl (λ commits id. BTreeMap.remove id commits) state.commits ids;
}

unfoldable pub drop_checkpoints : String → RuntimeState → RuntimeState
drop_checkpoints scope state = record state {
  checkpoints =
      BTreeMap.retain (λ checkpoint. not (checkpoint.key.scope_id == scope)) state.checkpoints;
}

-- `report.commits_deleted += 1` for each id.
unfoldable pub count_deleted : List String → V2MaintenanceReport → V2MaintenanceReport
count_deleted [] report = report
count_deleted (id ∷ ids) report =
    count_deleted ids (record report { commits_deleted = incr report.commits_deleted })

-- The chunks that the recorded commits name.
abbrev pub chunk_hashes : List Commit → List String
chunk_hashes [] = []
chunk_hashes (commit ∷ commits) = elim commit.change [
  | ResourceChange.binary_snapshot _ _ hashes ↦ hashes ++ chunk_hashes commits
  | ResourceChange.text_delta _ ↦ chunk_hashes commits
  | ResourceChange.delete ↦ chunk_hashes commits
]

module _ {W : Type 0} (r : SyncRuntime W) where
  -- The body of the second loop.
  unfoldable pub sweep_scope :
      String → List String → V2MaintenanceReport → Action W V2MaintenanceReport
  unfolding compaction remove_commits drop_checkpoints count_deleted
  sweep_scope scope obsolete report = do
    state ← get_state
    now ← read_world r.adapters.now_millis
    _ ← call (
        r.adapters.compact_catalog (
          compaction (snapshot_generation now (r.hashing.blake3 r.client_id)) state scope obsolete))
    _ ← modify (remove_commits obsolete)
    _ ← modify (drop_checkpoints scope)
    return (count_deleted obsolete report)

  unfoldable pub sweep_scopes :
      BTreeMap String (List String) → V2MaintenanceReport → Action W V2MaintenanceReport
  unfolding sweep_scope
  sweep_scopes [] report = return report
  sweep_scopes ((scope, obsolete) ∷ scopes) report =
      sweep_scope scope obsolete report >>= (λ report'. sweep_scopes scopes report')

  unfoldable pub delete_packs : List String → V2MaintenanceReport → Action W V2MaintenanceReport
  delete_packs [] report = return report
  delete_packs (pack ∷ packs) report =
      call (r.adapters.delete_pack_objects (pack ∷ packs))
      >>= (λ _. return (record report { packs_deleted = length (pack ∷ packs) }))

  unfoldable pub sweep_packs : V2MaintenanceReport → Action W V2MaintenanceReport
  unfolding delete_packs
  sweep_packs report = do
    state ← get_state
    live ←
        call (r.adapters.lookup_chunks (BTreeSet.from_list (chunk_hashes (values state.commits))))
    packs ← call r.adapters.list_pack_ids
    delete_packs
        (filter (λ pack. not (contains (map (λ location. location.pack_id) live) pack)) packs)
        report

  unfoldable pub maintain_scopes : List String → ℕ → Action W V2MaintenanceReport
  unfolding sweep_scopes sweep_packs
  maintain_scopes scopes n = do
    _ ← refresh_remote r.adapters []
    state ← get_state
    acks ← call (r.adapters.list_acknowledgements (remote_keys state scopes))
    acc ← maintain_keys r n acks (remote_keys state scopes) (record {
      report = record no_report { resources = length (remote_keys state scopes) };
      obsolete_by_scope = [];
    })
    swept ← sweep_scopes acc.obsolete_by_scope acc.report
    report ← sweep_packs swept
    _ ← save r
    return report

  -- No retention asked for: nothing is done.
  unfoldable pub maintain_retaining : List String → ℕ → Action W V2MaintenanceReport
  unfolding maintain_scopes
  maintain_retaining scopes zero = return no_report
  maintain_retaining scopes (suc n) = maintain_scopes scopes (suc n)

  unfoldable pub maintain : MaintenanceRequest → Action W V2MaintenanceReport
  unfolding maintain_retaining
  maintain request = maintain_retaining request.scopes request.history_retention_versions
