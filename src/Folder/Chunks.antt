-- ===== src/Folder/Chunks.antt =====
-- `lookup_chunks` and `read_ranges` of the folder (src/v2_remote.rs).
use rollforward.Prelude.{
  ◌+◌, String, Bytes, ◌||◌, ◌≢◌, ◌≡◌, List, [], ◌∷◌, ◌++◌, arith, ◌==◌, ==→eq, list_eq, nat_eq,
  list_ord, nat_ord, leb, if◌then◌else◌, length, contains, str,
}
use rollforward.Collections.BTreeMap
use rollforward.Collections.BTreeMap.{BTreeMap, values}
use rollforward.Errors.{Result, ok, err, SyncError, corrupt, io_error, traverse, ◌>>=◌}
use rollforward.Types.{ChunkLocation, PackRange, RangeData}
use rollforward.Binary.{PackIndex, PackedChunk, slice}
use rollforward.Folder.{FilePath, Files, Formats, packs_dir, indexes_dir, read_file, serde_result}
use rollforward.Folder.Scan.{files_under}

-- The inner loop: the first pack that has a chunk is the one that is named.
unfoldable pub locate :
    List String
    → String
    → BTreeMap String ChunkLocation
    → List PackedChunk
    → BTreeMap String ChunkLocation
locate wanted pack_id found [] = found
locate wanted pack_id found (chunk ∷ chunks) =
    let location : ChunkLocation = record {
      hash = chunk.hash;
      pack_id = pack_id;
      offset = chunk.offset;
      length = chunk.length;
    } in
    let skipped = locate wanted pack_id found chunks in
    let added = locate wanted pack_id (BTreeMap.insert chunk.hash location found) chunks in
    if contains wanted chunk.hash
    then (if BTreeMap.contains_key chunk.hash found then skipped else added)
    else skipped

locate_all :
    List String → BTreeMap String ChunkLocation → List PackIndex → BTreeMap String ChunkLocation
unfolding locate
locate_all wanted found [] = found
locate_all wanted found (index ∷ indexes) =
    locate_all wanted (locate wanted index.pack_id found index.chunks) indexes

-- What two results that are put together were.
join_results :
    Result RangeData SyncError
    → Result (List RangeData) SyncError
    → Result (List RangeData) SyncError
join_results first rest = do read ← first; reads ← rest; ok (read ∷ reads)

join_results-cons :
    (first : Result RangeData SyncError) (rest : Result (List RangeData) SyncError)
    (read : RangeData) (reads : List RangeData)
    → join_results first rest ≡ ok (read ∷ reads)
    → (first ≡ ok read) × (rest ≡ ok reads)
unfolding join_results
join_results-cons (err error) rest read reads e = absurd (grind (arith, e))
join_results-cons (ok r) (err error) read reads e = absurd (grind (arith, e))
join_results-cons (ok r) (ok rs) read reads e = ground (arith, e)

join_results-nil :
    (first : Result RangeData SyncError) (rest : Result (List RangeData) SyncError)
    → join_results first rest ≢ ok []
unfolding join_results
join_results-nil (err error) rest e = grind (arith, e)
join_results-nil (ok r) (err error) e = grind (arith, e)
join_results-nil (ok r) (ok rs) e = grind (arith, e)

module _ (f : Formats) (files : Files) where
  read_index : FilePath → Result PackIndex SyncError
  unfolding read_file serde_result
  read_index path = do bytes ← read_file f files path; serde_result f (f.index_of bytes)

  unfoldable pub lookup_chunks : List String → Result (List ChunkLocation) SyncError
  unfolding read_index locate_all files_under traverse
  lookup_chunks hashes = do
    indexes ← traverse read_index (files_under indexes_dir files)
    ok (values (locate_all hashes [] indexes))

  -- `read_exact`, and the check of what was read.
  unfoldable pub checked : PackRange → Bytes → Result RangeData SyncError
  checked range pack =
      let bytes = slice range.offset range.length pack in
      if (range.length == 0) || leb (range.offset + range.length) (length pack)
      then (if f.blake3 bytes == range.hash
          then ok (record { hash = range.hash; bytes = bytes })
          else err (corrupt range.hash))
      else err (io_error (str "failed to fill whole buffer"))

  unfoldable pub read_range : PackRange → Result RangeData SyncError
  unfolding checked read_file
  read_range range = read_file f files (packs_dir ++ (range.pack_id ∷ [])) >>= checked range

  unfoldable pub read_ranges : List PackRange → Result (List RangeData) SyncError
  unfolding read_range traverse
  read_ranges ranges = traverse read_range ranges

  checked-verified :
      (range : PackRange) (pack : Bytes) (read : RangeData)
      → checked range pack ≡ ok read
      → (read.hash ≡ range.hash) × (f.blake3 read.bytes ≡ read.hash)
  unfolding checked
  checked-verified range pack read e =
      ground (arith, e, ==→eq (f.blake3 (slice range.offset range.length pack)) range.hash)

  read_range-verified :
      (range : PackRange) (read : RangeData)
      → read_range range ≡ ok read
      → (read.hash ≡ range.hash) × (f.blake3 read.bytes ≡ read.hash)
  unfolding read_range
  read_range-verified range read e =
      opened (read_file f files (packs_dir ++ (range.pack_id ∷ []))) e
    where
      opened :
          (pack : Result Bytes SyncError)
          → (pack >>= checked range) ≡ ok read
          → (read.hash ≡ range.hash) × (f.blake3 read.bytes ≡ read.hash)
      opened (err error) e = absurd (grind (arith, e))
      opened (ok pack) e = checked-verified range pack read e

  -- Each range answers its request, with bytes of its digest.
  abbrev pub Verified : List PackRange → List RangeData → Type 0
  Verified [] [] = Unit
  Verified [] (read ∷ reads) = ⊥
  Verified (range ∷ ranges) [] = ⊥
  Verified (range ∷ ranges) (read ∷ reads) =
      (read.hash ≡ range.hash) × (f.blake3 read.bytes ≡ read.hash) × Verified ranges reads

  -- What is read from a pack is what was stored under its hash: where `read_ranges` succeeds, it
  -- answers every range in order, each with its hash and with bytes that have it as their digest.
  pub read_ranges-Verified :
      (ranges : List PackRange) (reads : List RangeData)
      → read_ranges ranges ≡ ok reads
      → Verified ranges reads
  unfolding read_ranges traverse join_results
  read_ranges-Verified [] [] e = tt
  read_ranges-Verified [] (read ∷ reads) e = absurd (grind (arith, e))
  read_ranges-Verified (range ∷ ranges) [] e =
      absurd (join_results-nil (read_range range) (read_ranges ranges) e)
  read_ranges-Verified (range ∷ ranges) (read ∷ reads) e =
      let (first, rest) = join_results-cons (read_range range) (read_ranges ranges) read reads e in
      let (hash, digest) = read_range-verified range read first in
      (hash, digest, read_ranges-Verified ranges reads rest)
