-- ===== src/Runtime/Content/RoundTrip.antt =====
-- `content_for_remote` (src/runtime.rs) on a head whose snapshot is a chunked file.
use rollforward.Prelude.{ℕ, String, Bytes, ◌≡◌, refl, some, List, [], ◌∷◌, arith, list_ord, nat_ord}
use rollforward.Collections.BTreeMap
use rollforward.Collections.BTreeMap.{BTreeMap}
use rollforward.Errors.{ok, traverse}
use rollforward.Types.{ResourceKey, Commit, ResourceChange, ChunkLocation, PackRange, RangeData}
use rollforward.Binary.{chunk_data, manifest, reassemble}
use rollforward.Binary.Chunks.{IsChunker, Serves, reassemble-manifest}
use rollforward.Text.Document.{Yrs}
use rollforward.Runtime.State.{RuntimeState}
use rollforward.Runtime.Action.{Adapters, Machine, ◌>>=◌, call, outcome, continue}
use rollforward.Runtime.Content.{
  range_of, fetched, join_chunks, by_hash, bytes_by_hash, read_chunks, content_of,
  content_for_remote, head_or_first,
}

-- The loop is `reassemble` over the ranges that were returned.
join_chunks-reassemble :
    (chunks : BTreeMap String Bytes) (hashes : List String)
    → join_chunks chunks hashes ≡ reassemble hashes (fetched chunks)
unfolding join_chunks reassemble
join_chunks-reassemble chunks [] = refl
join_chunks-reassemble chunks (hash ∷ hashes) = ground (arith, join_chunks-reassemble chunks hashes)

module _ {W : Type 0} (a : Adapters W) (y : Yrs) (blake3 : Bytes → String)
    (fast_cdc : Bytes → ℕ → ℕ → ℕ → List (ℕ × ℕ)) (bytes : Bytes) where
  read_chunks-manifest :
      (m : Machine W) (found : List ChunkLocation) (ranges : List PackRange) (read : List RangeData)
      (w v : W)
      → IsChunker fast_cdc
      → a.lookup_chunks (manifest blake3 fast_cdc bytes) m.world ≡ (w, ok found)
      → traverse (range_of (by_hash found)) (manifest blake3 fast_cdc bytes) ≡ ok ranges
      → a.read_ranges ranges w ≡ (v, ok read)
      → Serves (fetched (bytes_by_hash read)) (chunk_data blake3 fast_cdc bytes)
      → (read_chunks a y (manifest blake3 fast_cdc bytes) m).1 ≡ ok bytes
  unfolding read_chunks ◌>>=◌ continue call outcome
  read_chunks-manifest m found ranges read w v chunker located ranged answered serves =
      let joined = join_chunks-reassemble (bytes_by_hash read) (manifest blake3 fast_cdc bytes) in
      let whole =
        reassemble-manifest blake3 fast_cdc (fetched (bytes_by_hash read)) bytes chunker serves in
      rw (located, ranged, answered, joined, whole) refl

  -- The content of a head whose snapshot lists a file's chunks is that file: if FastCDC's cuts cover
  -- the file in order, the remote locates every chunk, and it returns each one's bytes for its hash.
  pub content_for_remote-manifest :
      (state : RuntimeState) (key : ResourceKey) (head : String) (commit : Commit)
      (content_id : String) (size : ℕ) (m : Machine W) (found : List ChunkLocation)
      (ranges : List PackRange) (read : List RangeData) (w v : W)
      → BTreeMap.get head state.commits ≡ some commit
      → commit.change
        ≡ ResourceChange.binary_snapshot content_id size (manifest blake3 fast_cdc bytes)
      → IsChunker fast_cdc
      → a.lookup_chunks (manifest blake3 fast_cdc bytes) m.world ≡ (w, ok found)
      → traverse (range_of (by_hash found)) (manifest blake3 fast_cdc bytes) ≡ ok ranges
      → a.read_ranges ranges w ≡ (v, ok read)
      → Serves (fetched (bytes_by_hash read)) (chunk_data blake3 fast_cdc bytes)
      → (content_for_remote a y state key (some head) m).1 ≡ ok bytes
  unfolding content_for_remote content_of head_or_first ◌>>=◌ continue outcome
  content_for_remote-manifest state key head commit content_id size m found ranges read w v recorded
        snapshot chunker located ranged answered serves =
      rw (recorded, snapshot)
        (read_chunks-manifest m found ranges read w v chunker located ranged answered serves)
