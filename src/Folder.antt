-- ===== src/Folder.antt =====
-- The folder remote (src/v2_remote.rs): its files as a map from paths to bytes. Writing does not
-- fail, as on a disk with room, and reading fails where there is no such file.
pub mod Scan
pub mod Keeps
pub mod Immutable
pub mod Chunks
pub mod Compact
pub mod Acknowledgements
mod Tests
use rollforward.Prelude.{
  ℕ, zero, suc, ◌+◌, ◌-◌, String, Bytes, Bool, true, false, ◌&&◌, Option, none, some, List, [], ◌∷◌,
  ◌++◌, map, ◌==◌, list_eq, nat_eq, list_ord, nat_ord, pair_ord, ltb, if◌then◌else◌, filter, length,
  head?, last?, unwrap_or, decimal, str, take, drop,
}
use rollforward.Collections.BTreeMap
use rollforward.Collections.BTreeMap.{BTreeMap, keys, values}
use rollforward.Collections.Sort.{sort_by}
use rollforward.Errors.{Result, ok, err, SyncError, io_error, serde_error, corrupt}
use rollforward.Types.{
  ResourceKey, Commit, CatalogEvent, ResourceAck, CatalogCursor, CatalogSnapshot, CommitBatch,
  CommitBatchResult, ChunkLocation, PackRange, RangeData, PackObject, PackIndexObject,
}
use rollforward.Binary.{PackIndex, PackedChunk, slice}
use rollforward.Runtime.Action.{Call}
use rollforward.Runtime.Refresh.{event_of}

-- The components of a path below the root.
abbrev pub FilePath : Type 0
FilePath = List String

abbrev pub Files : Type 0
Files = BTreeMap FilePath Bytes

pub record CatalogSegment : Type 0 where
  pub client_id : String
  pub scope_id : String
  pub first_counter : ℕ
  pub last_counter : ℕ
  pub events : List CatalogEvent

-- serde_json, blake3 in hex, and the message for a file that cannot be read.
pub record Formats : Type 0 where
  pub blake3 : Bytes → String
  pub commit_json : Commit → Result Bytes String
  pub commit_of : Bytes → Result Commit String
  pub segment_json : CatalogSegment → Result Bytes String
  pub segment_of : Bytes → Result CatalogSegment String
  pub index_of : Bytes → Result PackIndex String
  pub generation_of : Bytes → Result ℕ String
  pub snapshot_of : Bytes → Result CatalogSnapshot String
  pub snapshot_json : CatalogSnapshot → Result Bytes String
  pub generation_json : ℕ → Result Bytes String
  pub ack_json : ResourceAck → Result Bytes String
  pub ack_of : Bytes → Result ResourceAck String
  pub not_readable : FilePath → String

-- Names that fix a path, as `join` puts them together.
abbrev pub commits_dir : FilePath
commits_dir = str "commits" ∷ []

abbrev pub packs_dir : FilePath
packs_dir = str "packs" ∷ []

abbrev pub indexes_dir : FilePath
indexes_dir = str "pack-indexes" ∷ []

abbrev pub acknowledgements_dir : FilePath
acknowledgements_dir = str "acknowledgements" ∷ []

abbrev pub segments_dir : FilePath
segments_dir = str "catalog" ∷ str "clients" ∷ []

abbrev pub snapshots_dir : FilePath
snapshots_dir = str "catalog" ∷ str "snapshots" ∷ []

-- `?` between two calls: what the first one wrote stays.
abbrev pub followed_by :
    {A B : Type 0} → (A → Call Files B) → Files × Result A SyncError → Files × Result B SyncError
followed_by next (files, ok value) = next value files
followed_by next (files, err e) = (files, err e)

infixl 5 ◌>>=◌
unfoldable pub ◌>>=◌ : {A B : Type 0} → Call Files A → (A → Call Files B) → Call Files B
(first >>= next) files = followed_by next (first files)

unfoldable pub return : {A : Type 0} → A → Call Files A
return value files = (files, ok value)

-- `for` with `?` in its body.
unfoldable pub for_each : {A : Type 0} → (A → Call Files Unit) → List A → Call Files Unit
for_each body [] = return tt
for_each body (x ∷ xs) = body x >>= (λ _. for_each body xs)

-- What is done with a value that serde_json has written, or its error.
abbrev pub with_json : Result Bytes String → (Bytes → Call Files Unit) → Call Files Unit
with_json (err msg) next files = (files, err (serde_error msg))
with_json (ok bytes) next files = next bytes files

-- `write_immutable`: a file that is there stays as it is.
unfoldable pub write_immutable : FilePath → Bytes → Call Files Unit
write_immutable path bytes files =
    if BTreeMap.contains_key path files
    then (files, ok tt)
    else (BTreeMap.insert path bytes files, ok tt)

-- A number in twenty digits.
zeros : ℕ → String
zeros zero = []
zeros (suc n) = 48 ∷ zeros n

unfoldable pub padded : ℕ → String
unfolding zeros
padded n = zeros (20 - length (decimal n)) ++ decimal n

-- `entry(..).or_default().push(commit)`, by author and scope.
unfoldable pub group_commits :
    List Commit
    → BTreeMap (String × String) (List Commit)
    → BTreeMap (String × String) (List Commit)
group_commits [] groups = groups
group_commits (commit ∷ commits) groups =
    let key : String × String = (commit.author, commit.resource.scope_id) in
    group_commits commits
      (BTreeMap.insert key (unwrap_or [] (BTreeMap.get key groups) ++ (commit ∷ [])) groups)

abbrev counter_of : Option CatalogEvent → ℕ
counter_of none = 0
counter_of (some event) = event.counter

-- The segment of a group, its commits by their counters.
unfoldable pub segment_for : (String × String) × List Commit → CatalogSegment
segment_for (key, commits) =
    let events =
      map event_of (sort_by (λ left right. ltb left.client_counter right.client_counter) commits) in
    record {
      client_id = key.0;
      scope_id = key.1;
      first_counter = counter_of (head? events);
      last_counter = counter_of (last? events);
      events = events;
    }

module _ (f : Formats) where
  abbrev pub object_name : String → String
  object_name id = f.blake3 id

  serde_result : {A : Type 0} → Result A String → Result A SyncError
  serde_result (ok value) = ok value
  serde_result (err msg) = err (serde_error msg)

  -- `fs::read`.
  unfoldable pub read_file : Files → FilePath → Result Bytes SyncError
  read_file files path = elim (BTreeMap.get path files) [
    | none ↦ err (io_error (f.not_readable path))
    | some bytes ↦ ok bytes
  ]

  unfoldable pub commit_path : String → FilePath
  commit_path id = commits_dir ++ (object_name id ∷ [])

  pub store_commit : Commit → Call Files Unit
  unfolding commit_path
  store_commit commit =
      with_json (f.commit_json commit) (λ bytes. write_immutable (commit_path commit.id) bytes)

  unfoldable pub segment_path : CatalogSegment → Bytes → FilePath
  segment_path segment bytes =
      segments_dir
      ++ (object_name segment.client_id
          ∷ object_name segment.scope_id
          ∷ (padded segment.first_counter
              ++ (45 ∷ (padded segment.last_counter ++ (45 ∷ (f.blake3 bytes ++ str ".json")))))
          ∷ [])

  pub store_segment : (String × String) × List Commit → Call Files Unit
  unfolding segment_for segment_path
  store_segment group =
      let segment = segment_for group in
      with_json (f.segment_json segment)
        (λ bytes. write_immutable (segment_path segment bytes) bytes)

  -- `commit_batch`: the packs, their indexes and the commits first, and the segments that list the
  -- commits last.
  unfoldable pub commit_batch : CommitBatch → Call Files CommitBatchResult
  unfolding for_each store_commit store_segment group_commits
  commit_batch batch = do
    _ ← for_each (λ pack. write_immutable (packs_dir ++ (pack.id ∷ [])) pack.bytes) batch.packs
    _ ←
        for_each (λ index. write_immutable (indexes_dir ++ (index.id ∷ [])) index.bytes)
          batch.indexes
    _ ← for_each store_commit batch.commits
    _ ← for_each store_segment (group_commits batch.commits [])
    return (record { visible_commits = map (λ commit. commit.id) batch.commits })
