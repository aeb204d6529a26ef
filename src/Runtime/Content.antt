-- ===== src/Runtime/Content.antt =====
-- `content_for_remote` (src/runtime.rs): the bytes of a resource at one of its heads.
pub mod RoundTrip
use rollforward.Prelude.{
  ℕ, String, Bytes, Bool, Option, none, some, List, [], ◌∷◌, ◌++◌, map, list_ord, nat_ord, str,
  head?,
}
use rollforward.Collections.BTreeMap
use rollforward.Collections.BTreeMap.{BTreeMap}
use rollforward.Errors.{Result, ok, err, SyncError, io_error, ok_or, traverse}
use rollforward.Types.{
  ResourceKey, Commit, ResourceChange, ChunkLocation, PackRange, RangeData, encoded,
}
use rollforward.Text.Utf8.{as_bytes}
use rollforward.Text.Document.{Yrs}
use rollforward.Runtime.State.{RuntimeState, heads}
use rollforward.Runtime.Remote.{text_doc_at}
use rollforward.Runtime.Action.{Action, Adapters, Machine, ◌>>=◌, call, return, outcome, continue}

-- `selected_head`, or else the first head.
unfoldable pub head_or_first : Option String → List String → Option String
head_or_first none heads = head? heads
head_or_first (some id) heads = some id

-- Where a chunk stands, as the remote has said.
unfoldable pub range_of : BTreeMap String ChunkLocation → String → Result PackRange SyncError
range_of locations hash = elim (BTreeMap.get hash locations) [
  | none ↦ err (io_error (str "chunk " ++ (hash ++ str " is missing")))
  | some location ↦ ok (record {
    hash = hash;
    pack_id = location.pack_id;
    offset = location.offset;
    length = location.length;
  })
]

unfoldable pub fetched : BTreeMap String Bytes → String → Result Bytes SyncError
fetched chunks hash =
    ok_or (io_error (str "range " ++ (hash ++ str " was not returned"))) (BTreeMap.get hash chunks)

-- What a chunk and what follows it make of the file.
abbrev pub append_chunk : Result Bytes SyncError → Result Bytes SyncError → Result Bytes SyncError
append_chunk (err e) rest = err e
append_chunk (ok bytes) (err e) = err e
append_chunk (ok bytes) (ok more) = ok (bytes ++ more)

-- The last loop: the chunks in the order of their hashes.
unfoldable pub join_chunks : BTreeMap String Bytes → List String → Result Bytes SyncError
unfolding fetched
join_chunks chunks [] = ok []
join_chunks chunks (hash ∷ hashes) = append_chunk (fetched chunks hash) (join_chunks chunks hashes)

abbrev pub by_hash : List ChunkLocation → BTreeMap String ChunkLocation
by_hash found = BTreeMap.from_list (map (λ location. (location.hash, location)) found)

abbrev pub bytes_by_hash : List RangeData → BTreeMap String Bytes
bytes_by_hash read = BTreeMap.from_list (map (λ range. (range.hash, range.bytes)) read)

module _ {W : Type 0} (a : Adapters W) (y : Yrs) where
  unfoldable pub read_chunks : List String → Action W Bytes
  unfolding range_of join_chunks traverse
  read_chunks hashes = do
    found ← call (a.lookup_chunks hashes)
    ranges ← outcome (traverse (range_of (by_hash found)) hashes)
    read ← call (a.read_ranges ranges)
    outcome (join_chunks (bytes_by_hash read) hashes)

  unfoldable pub content_of : RuntimeState → ResourceKey → String → ResourceChange → Action W Bytes
  unfolding read_chunks
  content_of state key head ResourceChange.delete =
      outcome (err (io_error (encoded key ++ str " is deleted")))
  content_of state key head (ResourceChange.text_delta _) =
      outcome (text_doc_at y state key head) >>= (λ doc. return (as_bytes (y.get_string doc)))
  content_of state key head (ResourceChange.binary_snapshot _ _ chunk_hashes) =
      read_chunks chunk_hashes

  unfoldable pub content_for_remote : RuntimeState → ResourceKey → Option String → Action W Bytes
  unfolding content_of head_or_first
  content_for_remote state key selected = do
    head ← outcome (
        ok_or (io_error (str "remote resource " ++ (encoded key ++ str " has no head")))
          (head_or_first selected (heads state key)))
    commit ←
        outcome (ok_or (io_error (str "missing commit " ++ head)) (BTreeMap.get head state.commits))
    content_of state key head commit.change
