-- ===== src/Folder/Scan.antt =====
-- Reading the folder (src/v2_remote.rs): `scan_catalog` and `load_commits`. Files are visited in
-- the order of their paths, where the source takes the order of the directory.
pub mod Complete
pub mod Stored
use mathlib.Core.List.{foldl}
use rollforward.Prelude.{
  ℕ, ◌+◌, max, String, Bytes, Bool, true, false, ◌&&◌, ◌||◌, Option, none, some, List, [], ◌∷◌,
  ◌++◌, map, ◌==◌, Ord, list_eq, nat_eq, list_ord, nat_ord, pair_ord, ltb, leb, if◌then◌else◌,
  filter, length, contains, unwrap_or, str, last?,
}
use rollforward.Collections.BTreeMap
use rollforward.Collections.BTreeMap.{BTreeMap, keys, values}
use rollforward.Collections.Sort.{sort_by}
use rollforward.Errors.{Result, ok, err, SyncError, corrupt, io_error, serde_error, traverse, ◌>>=◌}
use rollforward.Types.{
  Commit, CatalogEvent, CatalogCursor, CatalogSnapshot, CatalogDelta, CatalogScanRequest,
  ChunkLocation, PackRange, RangeData,
}
use rollforward.Binary.{PackIndex, PackedChunk, slice}
use rollforward.Runtime.State.{in_scopes}
use rollforward.Runtime.Refresh.{Stream, cursor_map, cursor_of, merge_cursor}
use rollforward.Folder.{
  FilePath, Files, Formats, CatalogSegment, commits_dir, packs_dir, indexes_dir, segments_dir,
  snapshots_dir, read_file, commit_path, serde_result, padded,
}

-- `path.starts_with(root)`.
unfoldable pub starts_with : FilePath → FilePath → Bool
starts_with [] path = true
starts_with (r ∷ root) [] = false
starts_with (r ∷ root) (p ∷ path) = (r == p) && starts_with root path

-- `files_recursive`.
unfoldable pub files_under : FilePath → Files → List FilePath
unfolding starts_with
files_under root files = filter (starts_with root) (keys files)

-- The variables of `scan_catalog`'s loops.
pub record Scan : Type 0 where
  pub events : List CatalogEvent
  pub next : BTreeMap Stream ℕ
  pub covered : BTreeMap Stream ℕ
  pub snapshot_cursors : List CatalogCursor

abbrev pub stream_of_event : CatalogEvent → Stream
stream_of_event event = (event.client_id, event.resource.scope_id)

abbrev pub counter_at : BTreeMap Stream ℕ → Stream → ℕ
counter_at cursors stream = unwrap_or 0 (BTreeMap.get stream cursors)

unfoldable pub take_cursor : Scan → CatalogCursor → Scan
unfolding merge_cursor
take_cursor scan cursor = record scan {
  snapshot_cursors = scan.snapshot_cursors ++ (cursor ∷ []);
  covered = BTreeMap.insert (cursor.client_id, cursor.scope_id) cursor.counter scan.covered;
  next = merge_cursor scan.next cursor;
}

module _ (cursors : BTreeMap Stream ℕ) (scopes : List String) where
  -- The events of a snapshot that the caller has not seen.
  unfoldable pub snapshot_events : List CatalogEvent → List CatalogEvent
  snapshot_events events =
      filter
        (λ event.
          ltb (counter_at cursors (stream_of_event event)) event.counter
          && in_scopes scopes event.resource.scope_id)
        events

  unfoldable pub take_snapshot : Scan → CatalogSnapshot → Scan
  unfolding take_cursor snapshot_events
  take_snapshot scan snapshot =
      let scan' = foldl take_cursor scan snapshot.cursors in
      record scan' { events = scan'.events ++ snapshot_events snapshot.events }

  -- The events of a segment above a counter.
  unfoldable pub segment_events : ℕ → List CatalogEvent → List CatalogEvent
  segment_events cursor events =
      filter (λ event. ltb cursor event.counter && in_scopes scopes event.resource.scope_id) events

  unfoldable pub take_segment : Scan → CatalogSegment → Scan
  unfolding segment_events merge_cursor
  take_segment scan segment =
      let stream : Stream = (segment.client_id, segment.scope_id) in
      let cursor = max (counter_at cursors stream) (counter_at scan.covered stream) in
      let last : CatalogCursor = record {
        client_id = segment.client_id;
        scope_id = segment.scope_id;
        counter = segment.last_counter;
      } in
      if in_scopes scopes segment.scope_id
      then (if leb segment.last_counter cursor then scan else record scan {
        events = scan.events ++ segment_events cursor segment.events;
        next = merge_cursor scan.next last;
      })
      else scan

  unfoldable pub scan_all : List CatalogSnapshot → List CatalogSegment → Scan
  unfolding take_snapshot take_segment
  scan_all snapshots segments =
      let start : Scan = record {
        events = [];
        next = cursors;
        covered = [];
        snapshot_cursors = [];
      } in
      foldl take_segment (foldl take_snapshot start snapshots) segments

abbrev bytes_lt : String → String → Bool
bytes_lt = Ord.lt (list_ord ⦃o = nat_ord⦄)

-- By client, then by counter.
unfoldable pub event_before : CatalogEvent → CatalogEvent → Bool
event_before left right =
    bytes_lt left.client_id right.client_id
    || ((left.client_id == right.client_id) && ltb left.counter right.counter)

unfoldable pub delta_of_scan : Scan → CatalogDelta
unfolding event_before
delta_of_scan scan = record {
  events = sort_by event_before scan.events;
  cursors = map cursor_of scan.next;
  snapshot_cursors = scan.snapshot_cursors;
}

module _ (f : Formats) (files : Files) where
  read_segment : FilePath → Result CatalogSegment SyncError
  unfolding read_file serde_result
  read_segment path = do bytes ← read_file f files path; serde_result f (f.segment_of bytes)

  -- The snapshot that `latest.json` points to, beside it.
  read_snapshot : FilePath → Result CatalogSnapshot SyncError
  unfolding read_file serde_result
  read_snapshot latest = do
    number ← read_file f files latest
    generation ← serde_result f (f.generation_of number)
    bytes ← read_file f files (beside latest (padded generation ++ str ".json"))
    serde_result f (f.snapshot_of bytes)
    where
      beside : FilePath → String → FilePath
      beside [] name = name ∷ []
      beside (last ∷ []) name = name ∷ []
      beside (p ∷ q ∷ path) name = p ∷ beside (q ∷ path) name

  unfoldable pub load_snapshots : List String → Result (List CatalogSnapshot) SyncError
  unfolding files_under read_snapshot traverse
  load_snapshots scopes = do
    all ← traverse read_snapshot (
        filter (λ path. unwrap_or [] (last? path) == str "latest.json")
          (files_under snapshots_dir files))
    ok (filter (λ snapshot. in_scopes scopes snapshot.scope_id) all)

  unfoldable pub scan_catalog : CatalogScanRequest → Result CatalogDelta SyncError
  unfolding load_snapshots files_under read_segment traverse scan_all delta_of_scan
  scan_catalog request = do
    snapshots ← load_snapshots request.scopes
    segments ← traverse read_segment (files_under segments_dir files)
    ok (delta_of_scan (scan_all (cursor_map request.cursors) request.scopes snapshots segments))

  read_commit : String → Result Commit SyncError
  unfolding read_file serde_result
  read_commit id = do
    bytes ← read_file f files (commit_path f id)
    serde_result f (f.commit_of bytes)

  unfoldable pub load_commits : List String → Result (List Commit) SyncError
  unfolding read_commit traverse
  load_commits ids = traverse read_commit ids
