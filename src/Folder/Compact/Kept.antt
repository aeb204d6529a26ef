-- ===== src/Folder/Compact/Kept.antt =====
-- What `compact_catalog` (src/v2_remote.rs) does to the segments that its snapshot does not cover.
use rollforward.Prelude.{
  ℕ, Ord, ◌<◌, String, Bytes, true, false, ◌≡◌, ◌≢◌, refl, ◌∙◌, ap, Option, none, some, arith,
  list_ord, nat_ord, list_eq, nat_eq, pair_ord, leb, str,
}
use rollforward.Collections.BTreeMap
use rollforward.Collections.BTreeMap.{BTreeMap}
use rollforward.Collections.BTreeMap.Laws.{get-insert_ne, get-remove_ne}
use rollforward.Errors.{Result, ok, err}
use rollforward.Types.{CatalogCompaction, CatalogSnapshot}
use rollforward.Runtime.Refresh.{Stream, cursor_map}
use rollforward.Folder.{FilePath, Files, Formats, CatalogSegment, segments_dir, commit_path}
use rollforward.Folder.Scan.{starts_with, counter_at, files_under}
use rollforward.Folder.Keeps.{
  Has, Keeps, Keeps-write_immutable, Keeps-bind, Keeps-for_each, Keeps-with_json,
}
use rollforward.Folder.Compact.{
  replace_file, remove_file, drop_covered, compact_read, compact_segment, compact_segments,
  snapshot_path, compact_catalog,
}

abbrev path_ord : Ord FilePath
path_ord = list_ord

module _ (path : FilePath) (bytes : Bytes) where
  Keeps-replace_file :
      (p : FilePath) (b : Bytes) → p ≢ path → Keeps (Has path bytes) (replace_file p b)
  unfolding replace_file
  Keeps-replace_file p b n files h = get-insert_ne p path b files n ∙ h

  Keeps-remove_file : (p : FilePath) → p ≢ path → Keeps (Has path bytes) (remove_file p)
  unfolding remove_file
  Keeps-remove_file p n files h = get-remove_ne p path files n ∙ h

module _ (f : Formats) (path : FilePath) (bytes : Bytes) (segment : CatalogSegment)
    (covered : BTreeMap Stream ℕ) (decoded : f.segment_of bytes ≡ ok segment)
    (above : counter_at covered (segment.client_id, segment.scope_id) < segment.last_counter) where
  drop_covered-above :
      (files : Files) → drop_covered f covered path (f.segment_of bytes) files ≡ (files, ok tt)
  unfolding drop_covered
  drop_covered-above files =
      let kept : leb segment.last_counter (counter_at covered (segment.client_id, segment.scope_id))
          ≡ false =
        ground arith in
      rw (decoded, kept) refl

  Keeps-drop_covered :
      (p : FilePath) (read : Result CatalogSegment String)
      → p ≢ path
      → Keeps (Has path bytes) (drop_covered f covered p read)
  unfolding drop_covered remove_file
  Keeps-drop_covered p (err msg) n files h = h
  Keeps-drop_covered p (ok s) n files h = ground (arith, get-remove_ne p path files n)

  Keeps-compact_read :
      (p : FilePath) (found : Option Bytes)
      → p ≢ path
      → Keeps (Has path bytes) (compact_read f covered p found)
  unfolding compact_read
  Keeps-compact_read p none n files h = h
  Keeps-compact_read p (some b) n files h = Keeps-drop_covered p (f.segment_of b) n files h

  compact_segment-above :
      (files : Files)
      → BTreeMap.get path files ≡ some bytes
      → compact_segment f covered path files ≡ (files, ok tt)
  unfolding compact_segment compact_read
  compact_segment-above files h = rw h (drop_covered-above files)

  Keeps-compact_segment : (p : FilePath) → Keeps (Has path bytes) (compact_segment f covered p)
  unfolding compact_segment
  Keeps-compact_segment p files h = elim (path_ord.eq.dec p path) [
    | yes e ↦
        let same : compact_segment f covered p files ≡ (files, ok tt) =
          rw e (compact_segment-above files h) in
        ap (λ done. BTreeMap.get path done.0) same ∙ h
    | no n ↦ Keeps-compact_read p (BTreeMap.get p files) n files h
  ]

  Keeps-compact_segments : Keeps (Has path bytes) (compact_segments f covered)
  unfolding compact_segments
  Keeps-compact_segments files =
      Keeps-for_each (Has path bytes) (compact_segment f covered) (files_under segments_dir files)
        Keeps-compact_segment files

elsewhere :
    (p path : FilePath)
    → starts_with segments_dir p ≡ false
    → starts_with segments_dir path ≡ true
    → p ≢ path
elsewhere p path h k e = ground (arith, h, k, e)

snapshot_path-elsewhere :
    (f : Formats) (s : CatalogSnapshot) (name : String)
    → starts_with segments_dir (snapshot_path f s name) ≡ false
unfolding starts_with snapshot_path str list_eq nat_eq
snapshot_path-elsewhere f s name = refl

commit_path-elsewhere :
    (f : Formats) (id : String) → starts_with segments_dir (commit_path f id) ≡ false
unfolding starts_with commit_path str list_eq nat_eq
commit_path-elsewhere f id = refl

-- A compaction, also one that fails midway, keeps every segment whose last counter is above the
-- cursor that the snapshot has for its stream.
pub compact_catalog-Keeps :
    (f : Formats) (compaction : CatalogCompaction) (files : Files) (path : FilePath) (bytes : Bytes)
    (segment : CatalogSegment)
    → starts_with segments_dir path ≡ true
    → BTreeMap.get path files ≡ some bytes
    → f.segment_of bytes ≡ ok segment
    → counter_at (cursor_map compaction.snapshot.cursors) (segment.client_id, segment.scope_id)
      < segment.last_counter
    → BTreeMap.get path (compact_catalog f compaction files).0 ≡ some bytes
unfolding compact_catalog
compact_catalog-Keeps f compaction files path bytes segment under stored decoded above =
    Keeps-bind (Has path bytes) _ _
      (Keeps-with_json (Has path bytes) (f.snapshot_json compaction.snapshot) _
        (λ b _. Keeps-write_immutable path bytes _ b))
      (λ _.
        Keeps-bind (Has path bytes) _ _
          (Keeps-with_json (Has path bytes) (f.generation_json compaction.snapshot.generation) _
            (λ b _. Keeps-replace_file path bytes _ b (
              elsewhere _ path (snapshot_path-elsewhere f compaction.snapshot (str "latest.json"))
                under)))
          (λ _.
            Keeps-bind (Has path bytes) _ _
              (Keeps-compact_segments f path bytes segment (cursor_map compaction.snapshot.cursors)
                decoded above)
              (λ _. Keeps-for_each (Has path bytes) _ compaction.obsolete_commit_ids (λ id.
                Keeps-remove_file path bytes _
                  (elsewhere _ path (commit_path-elsewhere f id) under)))))
      files stored
