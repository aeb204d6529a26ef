-- ===== src/Runtime/Publish.antt =====
-- `publish_bytes` and `publish_delete` (src/runtime.rs): a new commit, put on the remote and then
-- recorded.
pub mod Atomic
pub mod OnHeads
use rollforward.Prelude.{
  ℕ, ℤ, String, Bytes, Bool, not, Option, none, some, List, [], ◌∷◌, map, ◌==◌, list_eq, nat_eq,
  list_ord, nat_ord, filter, length, contains,
}
use rollforward.Errors.{Result, ok, err, SyncError, serde_error, traverse}
use rollforward.Types.{
  ResourceKey, ResourceKind, Commit, ResourceChange, CommitBatch, PackObject, PackIndexObject,
  ChunkLocation, create_commit,
}
use rollforward.Foreign.{Hashing}
use rollforward.Binary.{ChunkInfo, Pack, PackIndex, chunk_data, build_packs}
use rollforward.Text.Utf8.{from_utf8}
use rollforward.Text.Document.{Yrs, set_text}
use rollforward.Runtime.State.{RuntimeState, record_commit}
use rollforward.Runtime.Remote.{text_doc}
use rollforward.Runtime.Action.{
  Action, Adapters, Machine, ◌>>=◌, get_state, read_world, modify, call, return, outcome, continue,
}
use rollforward.Runtime.Refresh.{incr}
use rollforward.Runtime.Codecs.{Codecs}

-- A change, and the objects to be stored with it.
pub record Change : Type 0 where
  pub change : ResourceChange
  pub packs : List PackObject
  pub indexes : List PackIndexObject

-- `state.counter += 1`.
unfoldable pub bump : RuntimeState → RuntimeState
bump state = record state { counter = incr state.counter }

abbrev pub serde : {A : Type 0} → Result A String → Result A SyncError
serde (ok value) = ok value
serde (err msg) = err (serde_error msg)

-- The chunks that the remote does not list.
unfoldable pub missing_chunks :
    List ChunkLocation → List (ChunkInfo × Bytes) → List (ChunkInfo × Bytes)
missing_chunks located chunks =
    let existing = map (λ location. location.hash) located in
    filter (λ chunk. not (contains existing chunk.0.hash)) chunks

module _ (k : Codecs) where
  unfoldable pub index_object : Pack → Result PackIndexObject SyncError
  index_object pack = elim (k.index_json pack.index) [
    | ok bytes ↦ ok (record { id = pack.pack_id; bytes = bytes })
    | err msg ↦ err (serde_error msg)
  ]

  decoded : Bytes → Result (List ℕ) SyncError
  decoded bytes = elim (from_utf8 bytes) [
    | some text ↦ ok text
    | none ↦ err (serde_error (k.utf8_message bytes))
  ]

abbrev pub pack_object : Pack → PackObject
pack_object pack = record { id = pack.pack_id; bytes = pack.bytes }

module _ {W : Type 0} (a : Adapters W) (f : Hashing) (y : Yrs) (k : Codecs)
    (client_id : String) where
  unfoldable pub next_counter : Action W ℕ
  unfolding bump
  next_counter = do _ ← modify bump; state ← get_state; return state.counter

  unfoldable pub binary_change : Bytes → Action W Change
  unfolding missing_chunks index_object
  binary_change bytes =
      let chunks = chunk_data f.blake3 k.fast_cdc bytes in
      call (a.lookup_chunks (map (λ chunk. chunk.0.hash) chunks)) >>= (λ located.
        let packs = build_packs f.blake3 (missing_chunks located chunks) in
        outcome (traverse (index_object k) packs) >>= (λ indexes. return (record {
          change =
              ResourceChange.binary_snapshot (f.blake3 bytes) (length bytes)
                (map (λ chunk. chunk.0.hash) chunks);
          packs = map pack_object packs;
          indexes = indexes;
        })))

  unfoldable pub text_change : ResourceKey → Bytes → Action W Change
  unfolding decoded
  text_change key bytes = do
    state ← get_state
    document ← outcome (text_doc y state key)
    text ← outcome (decoded k bytes)
    return (record {
      change = ResourceChange.text_delta (set_text y document text).0;
      packs = [];
      indexes = [];
    })

  unfoldable pub change_of : ResourceKind → ResourceKey → Bytes → Action W Change
  unfolding binary_change text_change
  change_of ResourceKind.binary key bytes = binary_change bytes
  change_of ResourceKind.text key bytes = text_change key bytes

  -- The end of both: the commit goes to the remote, and is recorded once it is there.
  unfoldable pub put_commit : ResourceKey → List String → ℕ → Change → Action W Commit
  put_commit key parents counter c = read_world a.now_millis >>= (λ now.
      let commit =
        create_commit f.blake3 f.commit_bytes now key parents client_id counter c.change in
      call (a.commit_batch (record { commits = commit ∷ []; packs = c.packs; indexes = c.indexes }))
      >>= (λ _. modify (record_commit commit) >>= (λ _. return commit)))

  unfoldable pub publish_bytes : ResourceKey → ResourceKind → Bytes → List String → Action W Commit
  unfolding next_counter change_of put_commit
  publish_bytes key kind bytes parents = do
    counter ← next_counter
    c ← change_of kind key bytes
    put_commit key parents counter c

  unfoldable pub publish_delete : ResourceKey → List String → Action W Commit
  unfolding next_counter put_commit
  publish_delete key parents = do
    counter ← next_counter
    put_commit key parents counter
        (record { change = ResourceChange.delete; packs = []; indexes = [] })
