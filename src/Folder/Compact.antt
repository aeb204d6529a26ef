-- ===== src/Folder/Compact.antt =====
-- `compact_catalog` (src/v2_remote.rs): a snapshot of a scope, in place of the segments that it
-- covers.
pub mod Kept
use rollforward.Prelude.{
  ℕ, String, Bytes, Bool, true, false, Option, none, some, List, [], ◌∷◌, ◌++◌, map, list_ord,
  nat_ord, pair_ord, leb, if◌then◌else◌, str,
}
use rollforward.Collections.BTreeMap
use rollforward.Collections.BTreeMap.{BTreeMap}
use rollforward.Errors.{Result, ok, err, SyncError, io_error, serde_error}
use rollforward.Types.{CatalogCompaction, CatalogSnapshot}
use rollforward.Runtime.Action.{Call}
use rollforward.Runtime.Refresh.{Stream, cursor_map}
use rollforward.Folder.{
  FilePath, Files, Formats, CatalogSegment, ◌>>=◌, for_each, with_json, write_immutable,
  snapshots_dir, segments_dir, object_name, padded, commit_path,
}
use rollforward.Folder.Scan.{files_under, counter_at}

-- Writing a temporary file and renaming it: the file has the new content.
unfoldable pub replace_file : FilePath → Bytes → Call Files Unit
replace_file path bytes files = (BTreeMap.insert path bytes files, ok tt)

unfoldable pub remove_file : FilePath → Call Files Unit
remove_file path files = (BTreeMap.remove path files, ok tt)

module _ (f : Formats) where
  -- A segment that has been read: it goes if the snapshot covers its last counter.
  unfoldable pub drop_covered :
      BTreeMap Stream ℕ → FilePath → Result CatalogSegment String → Call Files Unit
  unfolding remove_file
  drop_covered covered path (err msg) files = (files, err (serde_error msg))
  drop_covered covered path (ok segment) files =
      if leb segment.last_counter (counter_at covered (segment.client_id, segment.scope_id))
      then remove_file path files
      else (files, ok tt)

  -- The body of the loop over the segments, once the file has been looked for.
  unfoldable pub compact_read : BTreeMap Stream ℕ → FilePath → Option Bytes → Call Files Unit
  unfolding drop_covered
  compact_read covered path none files = (files, err (io_error (f.not_readable path)))
  compact_read covered path (some bytes) files =
      drop_covered covered path (f.segment_of bytes) files

  unfoldable pub compact_segment : BTreeMap Stream ℕ → FilePath → Call Files Unit
  unfolding compact_read
  compact_segment covered path files = compact_read covered path (BTreeMap.get path files) files

  unfoldable pub compact_segments : BTreeMap Stream ℕ → Call Files Unit
  unfolding compact_segment
  compact_segments covered files =
      for_each (compact_segment covered) (files_under segments_dir files) files

  unfoldable pub snapshot_path : CatalogSnapshot → String → FilePath
  snapshot_path snapshot name = snapshots_dir ++ (object_name f snapshot.scope_id ∷ name ∷ [])

  unfoldable pub compact_catalog : CatalogCompaction → Call Files Unit
  unfolding snapshot_path replace_file remove_file compact_segments
  compact_catalog compaction =
      let snapshot = compaction.snapshot in
      with_json (f.snapshot_json snapshot)
        (write_immutable (snapshot_path snapshot (padded snapshot.generation ++ str ".json")))
      >>= (λ _.
          with_json (f.generation_json snapshot.generation)
            (replace_file (snapshot_path snapshot (str "latest.json")))
          >>= (λ _. compact_segments (cursor_map snapshot.cursors) >>= (λ _.
              for_each (λ id. remove_file (commit_path f id)) compaction.obsolete_commit_ids)))
