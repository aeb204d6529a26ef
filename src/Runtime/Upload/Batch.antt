-- ===== src/Runtime/Upload/Batch.antt =====
-- The batch that `execute` (src/runtime.rs) makes of the uploads: the packs of the new chunks, and a
-- commit for each resource that has not failed.
use rollforward.Prelude.{
  ℕ, String, Option, none, some, List, [], ◌∷◌, ◌++◌, map, list_eq, nat_eq, if◌then◌else◌, contains,
}
use rollforward.Collections.BTreeMap.{BTreeMap}
use rollforward.Errors.{ok, err}
use rollforward.Types.{
  ResourceKey, Commit, ResourceChange, CommitBatch, PlanOperation, ResourceContent, PackIndexObject,
  operation_key, create_commit, key_eq,
}
use rollforward.Binary.{Pack}
use rollforward.Runtime.State.{heads}
use rollforward.Runtime.Action.{Action, ◌>>=◌, get_state, read_world, return, outcome}
use rollforward.Runtime.Publish.{next_counter, pack_object}
use rollforward.Runtime.Progress.{SyncRuntime}
use rollforward.Runtime.Upload.{Prepared}
use rollforward.Runtime.Upload.Changes.{upload_change, used_manifest}

-- A resource and its new commit.
abbrev pub Committed : Type 0
Committed = ResourceKey × Commit

module _ {W : Type 0} (r : SyncRuntime W) where
  -- The index of a pack, empty if it does not serialize: `to_vec(index).unwrap_or_default()`.
  unfoldable pub index_or_empty : Pack → PackIndexObject
  index_or_empty pack = record {
    id = pack.pack_id;
    bytes = elim (r.codecs.index_json pack.index) [ ok bytes ↦ bytes | err _ ↦ [] ];
  }

  unfoldable pub upload_batch : List Pack → List Committed → CommitBatch
  unfolding index_or_empty
  upload_batch packs committed = record {
    commits = map (λ c. c.1) committed;
    packs = map pack_object packs;
    indexes = map index_or_empty packs;
  }

  unfoldable pub commit_change :
      ResourceKey → List String → ℕ → Option ResourceChange → Action W (List Committed)
  commit_change key parents counter none = return []
  commit_change key parents counter (some change) = read_world r.adapters.now_millis >>= (λ now.
      return (
        (
          key,
          create_commit r.hashing.blake3 r.hashing.commit_bytes now key parents r.client_id counter
              change,
        )
        ∷ []))

  -- The loop over the uploads, with `committed_local` as its result.
  unfoldable pub commit_uploads :
      BTreeMap ResourceKey ResourceContent
      → Prepared
      → List PlanOperation
      → BTreeMap ResourceKey (List String)
      → Action W (List Committed)
  unfolding commit_change
  commit_uploads contents p [] manifests = return []
  commit_uploads contents p (operation ∷ operations) manifests =
      let key = operation_key operation in
      let skip = commit_uploads contents p operations manifests in
      let enter : Action W (List Committed) = get_state >>= (λ state.
        next_counter r.adapters r.hashing r.yrs r.codecs r.client_id >>= (λ counter.
          outcome (upload_change r contents p.merged_texts manifests state operation) >>= (λ change.
            commit_change key (heads state key) counter change >>= (λ made.
              commit_uploads contents p operations (used_manifest r key change manifests)
              >>= (λ rest. return (made ++ rest)))))) in
      if contains p.failed_upload_keys key then skip else enter
