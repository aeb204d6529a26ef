-- ===== src/Folder/Tests.antt =====
-- The theorems on the folder at concrete contents.
use mathlib.Core.List.{Memᴰ}
use rollforward.Prelude.{
  list_lt, pair_eq, pos, String, Bytes, none, ◌≡◌, refl, some, List, [], ◌∷◌, ◌++◌, arith, list_eq,
  nat_eq, list_ord, nat_ord, pair_ord, str,
}
use rollforward.Collections.BTreeMap
use rollforward.Errors.{ok, err, traverse}
use rollforward.Types.{
  ResourceKey, Commit, ResourceChange, CatalogEvent, CatalogCompaction, CommitBatch, PackRange,
}
use rollforward.Runtime.State.{in_scopes}
use rollforward.Folder.{
  Files, Formats, CatalogSegment, commit_path, commit_batch, read_file, packs_dir, segments_dir,
}
use rollforward.Folder.Immutable.{commit_batch-immutable}
use rollforward.Folder.Keeps.{OnSuccess}
use rollforward.Folder.Scan.Stored.{load_commits-commit_batch}
use rollforward.Folder.Scan.{load_commits, starts_with, scan_all, delta_of_scan}
use rollforward.Folder.Scan.Complete.{scan_all-complete}
use rollforward.Folder.Compact.{compact_catalog}
use rollforward.Folder.Compact.Kept.{compact_catalog-Keeps}
use rollforward.Runtime.Refresh.{cursor_map}
use rollforward.Folder.Chunks.{checked, read_range, read_ranges, Verified, read_ranges-Verified}

-- Formats that know one of each thing, and a digest that is the bytes.
abbrev file : ResourceKey
file = record { scope_id = 1 ∷ []; resource_id = 2 ∷ [] }

abbrev commit : Commit
commit = record {
  id = 10 ∷ [];
  resource = file;
  parents = [];
  author = 9 ∷ [];
  client_counter = 4;
  timestamp = pos 0;
  change = ResourceChange.delete;
}

abbrev event : CatalogEvent
event = record { client_id = 9 ∷ []; counter = 4; commit_id = 10 ∷ []; resource = file }

abbrev segment : CatalogSegment
segment = record {
  client_id = 9 ∷ [];
  scope_id = 1 ∷ [];
  first_counter = 4;
  last_counter = 4;
  events = event ∷ [];
}

abbrev formats : Formats
formats = record {
  blake3 = λ bytes. bytes;
  commit_json = λ c. ok c.id;
  commit_of = λ bytes. ok commit;
  segment_json = λ s. ok s.client_id;
  segment_of = λ bytes. ok segment;
  index_of = λ bytes. ok (record { pack_id = bytes; chunks = [] });
  generation_of = λ bytes. ok 1;
  snapshot_of = λ bytes. err [];
  snapshot_json = λ s. ok s.scope_id;
  generation_json = λ n. ok [];
  ack_json = λ a. ok a.client_id;
  ack_of = λ bytes. err [];
  not_readable = λ path. [];
}

abbrev pack_path : List String
pack_path = packs_dir ++ ((7 ∷ []) ∷ [])

abbrev one_pack : Files
one_pack = (pack_path, 5 ∷ 6 ∷ 8 ∷ []) ∷ []

abbrev batch : CommitBatch
batch = record {
  commits = commit ∷ [];
  packs = record { id = 7 ∷ []; bytes = 1 ∷ [] } ∷ [];
  indexes = [];
}

commit_batch-immutable_example :
    BTreeMap.get pack_path (commit_batch formats batch one_pack).0 ≡ some (5 ∷ 6 ∷ 8 ∷ [])
unfolding BTreeMap.get list_eq nat_eq str
commit_batch-immutable_example =
    commit_batch-immutable formats batch one_pack pack_path (5 ∷ 6 ∷ 8 ∷ []) refl

only : (other : Commit) → Memᴰ other batch.commits → other ≡ commit
only other (Memᴰ.head same) = same
only other (Memᴰ.tail later) = elim later [ ]

none_before : (found : Bytes) → none ≡ some found → found ≡ 10 ∷ []
none_before found e = grind arith

load_commits-commit_batch_example :
    OnSuccess
      (λ after. load_commits formats after ((10 ∷ []) ∷ []) ≡ ok (commit ∷ []))
      (commit_batch formats batch one_pack)
unfolding BTreeMap.get list_eq nat_eq str commit_path
load_commits-commit_batch_example =
    load_commits-commit_batch formats commit (10 ∷ []) batch one_pack refl refl none_before
      (λ other listed same. only other listed) (Memᴰ.head refl)

scan_all-complete_example : Memᴰ event (delta_of_scan (scan_all [] [] [] (segment ∷ []))).events
unfolding in_scopes BTreeMap.get scan_all
scan_all-complete_example =
    scan_all-complete [] [] [] (segment ∷ []) segment event (Memᴰ.head refl) (Memᴰ.head refl) refl
      refl (omega arith) (omega arith) (omega arith)

abbrev asked : PackRange
asked = record { hash = 6 ∷ 8 ∷ []; pack_id = 7 ∷ []; offset = 1; length = 2 }

read_ranges-Verified_example :
    Verified formats one_pack (asked ∷ []) (record { hash = 6 ∷ 8 ∷ []; bytes = 6 ∷ 8 ∷ [] } ∷ [])
unfolding read_ranges read_range checked read_file traverse BTreeMap.get list_eq nat_eq str
read_ranges-Verified_example =
    read_ranges-Verified formats one_pack (asked ∷ [])
      (record { hash = 6 ∷ 8 ∷ []; bytes = 6 ∷ 8 ∷ [] } ∷ []) refl

abbrev segment_file : List String
segment_file = segments_dir ++ ((3 ∷ []) ∷ [])

abbrev one_segment : Files
one_segment = (segment_file, 3 ∷ []) ∷ []

-- A snapshot that stops short of the segment.
abbrev compaction : CatalogCompaction
compaction = record {
  snapshot = record {
    generation = 1;
    scope_id = 1 ∷ [];
    events = [];
    cursors = record { client_id = 9 ∷ []; scope_id = 1 ∷ []; counter = 3 } ∷ [];
  };
  obsolete_commit_ids = (10 ∷ []) ∷ [];
}

compact_catalog-Keeps_example :
    BTreeMap.get segment_file (compact_catalog formats compaction one_segment).0 ≡ some (3 ∷ [])
unfolding BTreeMap.get BTreeMap.insert BTreeMap.from_list cursor_map starts_with list_eq nat_eq
    pair_eq list_lt str
compact_catalog-Keeps_example =
    compact_catalog-Keeps formats compaction one_segment segment_file (3 ∷ []) segment refl refl
      refl (omega arith)
