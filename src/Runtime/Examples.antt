-- ===== src/Runtime/Examples.antt =====
-- The theorems on the runtime's operations, over adapters whose world is the batches they were sent.
use rollforward.Prelude.{
  false, ◌⊎◌, ℕ, pos, Bytes, true, ◌≡◌, ◌≤◌, refl, ◌+◌, none, some, List, [], ◌∷◌, ◌++◌, map, arith,
  list_eq, nat_eq, list_ord, nat_ord, take, drop, length, list_lt, decimal,
}
use rollforward.Collections.BTreeMap
use rollforward.Collections.BTreeMap.Laws.{IsSorted}
use rollforward.Collections.BTreeSet
use rollforward.Errors.{Result, ok, SyncError, traverse}
use rollforward.Types.{
  ResourceKey, binary, text, Commit, ResourceChange, CatalogDelta, CommitBatch, SyncPlan,
  PlanOperation, LocalResource, ReplicaState, operation_key, create_commit, commit_id, key_eq,
  key_ord,
}
use rollforward.Foreign.{Hashing}
use rollforward.Binary.{build_packs, pack_loop, seal_pack, chunk_at, manifest, chunk_data}
use rollforward.Binary.Chunks.{IsChunker}
use rollforward.Text.Document.{Yrs}
use rollforward.Runtime.State.{
  RuntimeState, default_state, resource_commits, heads, remote_keys, baseline_pairs,
}
use rollforward.Runtime.Action.{
  Adapters, Machine, ◌>>=◌, get_state, modify, call, return, outcome, continue, read_world, new_run,
}
use rollforward.Runtime.Refresh.{refresh_remote}
use rollforward.Runtime.Refresh.Cursors.{cursor_at, highest}
use rollforward.Runtime.Refresh.Grows.{recorded, refresh_remote-Grows, refresh_remote-cursors}
use rollforward.Planner.{plan_inventory, plan_key, plan_resource}
use rollforward.Runtime.Publish.{
  binary_change, change_of, index_object, missing_chunks, publish_bytes, put_commit, next_counter,
  bump,
}
use rollforward.Runtime.Codecs.{Codecs}
use rollforward.Runtime.Publish.Atomic.{Recorded, Sent, publish_bytes-Published}
use rollforward.Runtime.Publish.OnHeads.{publish_bytes-heads}
use rollforward.Runtime.Remote.{remote_pairs}
use rollforward.Runtime.Plan.{build_plan, merge_texts, prioritize}
use rollforward.Runtime.Plan.Keys.{build_plan-IsSorted}
use rollforward.Runtime.Content.{range_of, fetched, content_for_remote}
use rollforward.Runtime.Content.RoundTrip.{content_for_remote-manifest}

abbrev pub plain : Hashing
plain = record {
  blake3 = λ bytes. bytes;
  conflict_seed = λ key kind local heads. key.resource_id;
  commit_bytes = λ key parents author counter now change. key.resource_id;
}

abbrev pub content_only : Yrs
content_only = record {
  Doc = List ℕ;
  StateVector = Unit;
  new_doc = [];
  get_string = λ doc. doc;
  state_vector = λ doc. tt;
  empty_vector = tt;
  remove_range = λ doc start count. take start doc ++ drop (start + count) doc;
  insert = λ doc start text. take start doc ++ (text ++ drop start doc);
  encode_state_as_update = λ doc vector. doc;
  apply_update = λ doc update. ok update;
}

-- The whole file is one chunk.
abbrev one_cut : Bytes → ℕ → ℕ → ℕ → List (ℕ × ℕ)
one_cut bytes min avg max = (0, length bytes) ∷ []

one_cut-IsChunker : IsChunker one_cut
one_cut-IsChunker bytes = (refl, omega arith)

abbrev pub codecs : Codecs
codecs = record {
  fast_cdc = one_cut;
  index_json = λ index. ok index.pack_id;
  utf8_message = λ bytes. [];
  detail_json = λ fields. [];
  state_json = λ state. ok [];
  state_from_json = λ bytes. ok default_state;
}

abbrev pub file : ResourceKey
file = record { scope_id = 1 ∷ []; resource_id = 2 ∷ [] }

abbrev delta : CatalogDelta
delta = record {
  events = record { client_id = 9 ∷ []; counter = 4; commit_id = 10 ∷ []; resource = file } ∷ [];
  cursors = record { client_id = 9 ∷ []; scope_id = 1 ∷ []; counter = 4 } ∷ [];
  snapshot_cursors = [];
}

-- A remote that keeps every batch, and has every chunk under its hash, which is its bytes.
abbrev pub batches : Adapters (List CommitBatch)
batches = record {
  list_resources = λ scopes w. (w, ok []);
  read_resources = λ keys w. (w, ok []);
  apply_mutations = λ mutations w. (w, ok []);
  scan_catalog = λ request w. (w, ok delta);
  load_commits = λ ids w. (w, ok []);
  commit_batch = λ batch w. (batch ∷ w, ok (record { visible_commits = [] }));
  lookup_chunks = λ hashes w. (
    w,
    ok (
        map (λ hash. record { hash = hash; pack_id = hash; offset = 0; length = length hash })
          hashes),
  );
  read_ranges =
      λ ranges w. (w, ok (map (λ range. record { hash = range.hash; bytes = range.hash }) ranges));
  write_acknowledgements = λ acks w. (w, ok tt);
  list_acknowledgements = λ keys w. (w, ok []);
  list_pack_ids = λ w. (w, ok []);
  delete_pack_objects = λ ids w. (w, ok tt);
  compact_catalog = λ compaction w. (w, ok tt);
  load_runtime_state = λ w. (w, ok none);
  save_runtime_state = λ bytes w. (w, ok tt);
  on_events = λ events w. w;
  close = λ w. (w, ok tt);
  text_merge_policy = none;
  now_millis = λ w. pos 0;
}

abbrev snapshot : Commit
snapshot = record {
  id = 10 ∷ [];
  resource = file;
  parents = [];
  author = 9 ∷ [];
  client_counter = 4;
  timestamp = pos 0;
  change =
      ResourceChange.binary_snapshot (5 ∷ 6 ∷ []) 2 (manifest plain.blake3 one_cut (5 ∷ 6 ∷ []));
}

abbrev pub seen : RuntimeState
seen = record default_state { commits = (10 ∷ [], snapshot) ∷ [] }

abbrev pub start : Machine (List CommitBatch)
start = record { state = seen; world = []; run = new_run [] }

refresh_remote-Grows_example :
    (cursor_at (9 ∷ [], 1 ∷ []) seen
      ≤ cursor_at (9 ∷ [], 1 ∷ []) (refresh_remote batches [] start).0.state)
    × ((recorded (10 ∷ []) seen ≡ false)
        ⊎ (recorded (10 ∷ []) (refresh_remote batches [] start).0.state ≡ true))
refresh_remote-Grows_example = refresh_remote-Grows batches [] start (9 ∷ [], 1 ∷ []) (10 ∷ [])

refresh_remote-cursors_example :
    ((refresh_remote batches [] start).1 ≡ ok tt)
    × (cursor_at (9 ∷ [], 1 ∷ []) (refresh_remote batches [] start).0.state
        ≡ highest (9 ∷ [], 1 ∷ []) (cursor_at (9 ∷ [], 1 ∷ []) seen) delta.cursors)
refresh_remote-cursors_example =
    refresh_remote-cursors batches [] start delta [] [] [] refl refl (9 ∷ [], 1 ∷ [])

abbrev publication : Machine (List CommitBatch) × Result Commit SyncError
publication =
    publish_bytes batches plain content_only codecs (7 ∷ []) file binary (5 ∷ 6 ∷ [])
      (heads seen file) start

publish_bytes-Published_example :
    Recorded seen file (heads seen file) (7 ∷ []) publication
    × Sent batches
        (change_of batches plain content_only codecs
          (7 ∷ [])
          binary
          file
          (5 ∷ 6 ∷ [])
          (record start { state = bump seen }))
        publication
publish_bytes-Published_example =
    publish_bytes-Published batches plain content_only codecs (7 ∷ []) file binary (5 ∷ 6 ∷ [])
      (heads seen file) start

content_for_remote-manifest_example :
    (content_for_remote batches content_only seen file (some (10 ∷ [])) start).1 ≡ ok (5 ∷ 6 ∷ [])
unfolding BTreeMap.get BTreeMap.insert BTreeMap.from_list list_eq nat_eq list_lt manifest chunk_data
    chunk_at traverse range_of fetched
content_for_remote-manifest_example =
    content_for_remote-manifest batches content_only plain.blake3 one_cut (5 ∷ 6 ∷ []) seen file
      (10 ∷ []) snapshot (5 ∷ 6 ∷ []) 2 start
      (record { hash = 5 ∷ 6 ∷ []; pack_id = 5 ∷ 6 ∷ []; offset = 0; length = 2 } ∷ [])
      (record { hash = 5 ∷ 6 ∷ []; pack_id = 5 ∷ 6 ∷ []; offset = 0; length = 2 } ∷ [])
      (record { hash = 5 ∷ 6 ∷ []; bytes = 5 ∷ 6 ∷ [] } ∷ []) [] [] refl refl one_cut-IsChunker refl
      refl refl (refl, tt)

abbrev next : Commit
next =
    create_commit plain.blake3 plain.commit_bytes (pos 0) file (heads seen file) (7 ∷ []) 1
      (ResourceChange.binary_snapshot (5 ∷ 6 ∷ []) 2 (manifest plain.blake3 one_cut (5 ∷ 6 ∷ [])))

abbrev after : Machine (List CommitBatch)
after =
    (publish_bytes batches plain content_only codecs (7 ∷ []) file binary (5 ∷ 6 ∷ [])
      (heads seen file) start).0

published :
    publish_bytes batches plain content_only codecs
      (7 ∷ [])
      file
      binary
      (5 ∷ 6 ∷ [])
      (heads seen file)
      start
    ≡ (after, ok next)
unfolding publish_bytes next_counter bump change_of binary_change put_commit missing_chunks
    build_packs pack_loop seal_pack index_object traverse ◌>>=◌ continue get_state modify call
    return outcome read_world manifest chunk_data chunk_at list_eq nat_eq
published = refl

publish_bytes-heads_example : heads after.state file ≡ next.id ∷ []
unfolding BTreeMap.get create_commit commit_id decimal list_eq nat_eq list_lt resource_commits
    key_eq
publish_bytes-heads_example =
    publish_bytes-heads batches plain content_only codecs (7 ∷ []) file start after next binary
      (5 ∷ 6 ∷ []) (refl, tt) published refl refl

abbrev only_local : LocalResource
only_local = record { key = file; kind = text; state = ReplicaState.present (3 ∷ []) 1 (4 ∷ []) }

abbrev upload_plan : SyncPlan
upload_plan = record {
  operations = PlanOperation.upload file (ReplicaState.present (3 ∷ []) 1 (4 ∷ [])) ∷ [];
}

planned :
    build_plan plain content_only (λ key. pos 0) none default_state [] (only_local ∷ [])
    ≡ ok upload_plan
unfolding build_plan remote_pairs remote_keys baseline_pairs BTreeSet.from_list BTreeSet.insert
    plan_inventory plan_key plan_resource BTreeMap.from_list BTreeMap.insert BTreeMap.get
    merge_texts prioritize traverse key_eq key_ord list_eq nat_eq
planned = refl

build_plan-IsSorted_example : IsSorted (map operation_key upload_plan.operations)
build_plan-IsSorted_example =
    build_plan-IsSorted plain content_only (λ key. pos 0) default_state [] (only_local ∷ [])
      upload_plan planned
