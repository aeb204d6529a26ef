-- ===== src/Runtime/Upload.antt =====
-- The first half of the uploads of `execute` (src/runtime.rs): the contents are read, and each is
-- checked, merged where a policy does that, and cut into chunks.
pub mod Changes
pub mod Batch
pub mod Settle
use rollforward.Prelude.{
  String, Bytes, Bool, true, false, Option, none, some, List, [], ◌∷◌, ◌++◌, map, ◌==◌, str,
  list_eq, nat_eq, option_eq, list_ord, nat_ord, if◌then◌else◌, filter, filter_map,
}
use rollforward.Collections.BTreeMap
use rollforward.Collections.BTreeMap.{BTreeMap}
use rollforward.Errors.{Result, ok, err, SyncError, serde_error}
use rollforward.Types.{
  ResourceKey, ResourceKind, text, binary, ReplicaState, BaselineState, ConflictKind,
  ConflictRecord, content_vs_content, PlanOperation, ResourceContent, version_token, new_conflict,
  encoded, key_ord, kind_eq, key_eq,
}
use rollforward.Binary.{ChunkInfo, chunk_data}
use rollforward.Text.Utf8.{as_bytes, from_utf8}
use rollforward.Text.Document.{from_baseline_and_deltas}
use rollforward.Runtime.State.{RuntimeState, StoredBaseline, heads}
use rollforward.Runtime.Remote.{text_doc, remote_state}
use rollforward.Runtime.Action.{
  Action, Adapters, Machine, Progress, TextMergeResult, TextMergePolicy, ◌>>=◌, get_state,
  read_world, modify, call, return, outcome, update_run,
}
use rollforward.Runtime.Refresh.{incr}
use rollforward.Runtime.Codecs.{Codecs, Detail, Scalar}
use rollforward.Runtime.Progress.{SyncRuntime, text_field, add_failure, event, emit_progress}

-- What the loop collects. The two hash sets and maps are only looked up.
pub record Prepared : Type 0 where
  pub chunks : List (ChunkInfo × Bytes)
  pub manifests : BTreeMap ResourceKey (List String)
  pub failed_upload_keys : List ResourceKey
  pub merged_texts : BTreeMap ResourceKey Bytes

abbrev pub nothing_prepared : Prepared
nothing_prepared = record {
  chunks = [];
  manifests = [];
  failed_upload_keys = [];
  merged_texts = [];
}

abbrev pub is_upload : PlanOperation → Bool
is_upload (PlanOperation.upload _ _) = true
is_upload (PlanOperation.publish_delete _) = true
is_upload _ = false

abbrev pub upload_key : PlanOperation → Option ResourceKey
upload_key (PlanOperation.upload key _) = some key
upload_key _ = none

abbrev pub content_map : List ResourceContent → BTreeMap ResourceKey ResourceContent
content_map contents = BTreeMap.from_list (map (λ content. (content.key, content)) contents)

unfoldable pub add_failed : ResourceKey → Prepared → Prepared
add_failed key p = record p { failed_upload_keys = key ∷ p.failed_upload_keys }

-- The heads that a baseline of present content acknowledges.
abbrev pub present_heads : Option StoredBaseline → Option (List String)
present_heads none = none
present_heads (some baseline) = elim baseline.state [
  | BaselineState.present _ _ heads ↦ some heads
  | BaselineState.deleted _ ↦ none
]

-- The document under the baseline, where the remote has moved on from it.
unfoldable pub merge_base : RuntimeState → ResourceKey → Option Bytes
merge_base state key = elim (present_heads (BTreeMap.get (encoded key) state.baselines)) [
  | none ↦ none
  | some acknowledged ↦
      if acknowledged == heads state key then none else BTreeMap.get (encoded key) state.text_states
]

unfoldable pub insert_conflict : ConflictRecord → RuntimeState → RuntimeState
insert_conflict conflict state = record state {
  conflicts = BTreeMap.insert conflict.id conflict state.conflicts;
}

-- `report.conflicts += 1`.
unfoldable pub count_conflict : Progress → Progress
count_conflict run = record run {
  report = record run.report { conflicts = incr run.report.conflicts };
}

-- `str::from_utf8(&data).map_err(serde_error)?`.
unfoldable pub text_of : Codecs → Bytes → Result String SyncError
text_of k bytes = elim (from_utf8 bytes) [
  | some value ↦ ok value
  | none ↦ err (serde_error (k.utf8_message bytes))
]

module _ {W : Type 0} (r : SyncRuntime W) (run_id : String) where
  -- The end of the loop body: a binary content is cut into chunks.
  unfoldable pub add_chunks : ResourceKey → ResourceContent → Prepared → Prepared
  add_chunks key content p =
      let chunks = chunk_data r.hashing.blake3 r.codecs.fast_cdc content.bytes in
      if content.kind == binary
      then record p {
        chunks = p.chunks ++ chunks;
        manifests = BTreeMap.insert key (map (λ chunk. chunk.0.hash) chunks) p.manifests;
      }
      else p

  -- The policy keeps both sides.
  unfoldable pub merge_conflict : ResourceKey → ReplicaState → String → Prepared → Action W Prepared
  unfolding add_failed insert_conflict count_conflict
  merge_conflict key local reason p = do
    state ← get_state
    remote ← outcome (remote_state r.hashing r.yrs state key)
    now ← read_world r.adapters.now_millis
    conflict ← return (
        new_conflict r.hashing.blake3 r.hashing.conflict_seed now key content_vs_content local
          remote)
    _ ← modify (insert_conflict conflict)
    _ ← update_run count_conflict
    _ ← emit_progress r (
        event r run_id conflict.id (str "conflict") (some key) (
          (str "kind", text_field (str "ContentVsContent"))
          ∷ (str "reason", text_field reason)
          ∷ (str "structured_text", Detail.scalar (Scalar.boolean true))
          ∷ []))
    return (add_failed key p)

  unfoldable pub merged :
      ResourceKey → ReplicaState → ResourceContent → Prepared → TextMergeResult → Action W Prepared
  unfolding add_chunks merge_conflict text_of
  merged key local content p TextMergeResult.not_handled = return (add_chunks key content p)
  merged key local content p (TextMergeResult.merged bytes) =
      outcome (text_of r.codecs bytes) >>= (λ _. return (
        add_chunks key content
          (record p { merged_texts = BTreeMap.insert key bytes p.merged_texts })))
  merged key local content p (TextMergeResult.conflict reason) = merge_conflict key local reason p

  -- The policy is asked where there is a base, and the text has moved on both sides.
  unfoldable pub merge_upload :
      TextMergePolicy
      → ResourceKey
      → ReplicaState
      → ResourceContent
      → Prepared
      → Option Bytes
      → Action W Prepared
  unfolding add_chunks merged
  merge_upload policy key local content p none = return (add_chunks key content p)
  merge_upload policy key local content p (some full) = do
    state ← get_state
    base ← outcome (from_baseline_and_deltas r.yrs (some full) [])
    remote ← outcome (text_doc r.yrs state key)
    result ← outcome (
        policy.merge_text key (as_bytes (r.yrs.get_string base)) content.bytes
          (as_bytes (r.yrs.get_string remote)))
    merged key local content p result

  unfoldable pub fail_upload : ResourceKey → Prepared → Action W Prepared
  unfolding add_failure add_failed
  fail_upload key p = update_run (add_failure key.scope_id) >>= (λ _. return (add_failed key p))

  unfoldable pub check_policy :
      Option TextMergePolicy
      → ResourceKey
      → ReplicaState
      → ResourceContent
      → Prepared
      → Action W Prepared
  unfolding merge_upload merge_base add_chunks
  check_policy none key local content p = return (add_chunks key content p)
  check_policy (some policy) key local content p = get_state >>= (λ state.
      merge_upload policy key local content p
        (if content.kind == text then merge_base state key else none))

  unfoldable pub check_content :
      ResourceKey → ReplicaState → Option ResourceContent → Prepared → Action W Prepared
  unfolding fail_upload check_policy
  check_content key local none p = fail_upload key p >>= (λ failed.
      emit_progress r (
        event r run_id (run_id ++ str ":read") (str "error") (some key)
          ((str "error", text_field (str "local replica did not return requested content")) ∷ []))
      >>= (λ _. return failed))
  check_content key local (some content) p =
      if version_token local == some content.version_token
      then check_policy r.adapters.text_merge_policy key local content p
      else fail_upload key p

  unfoldable pub check_upload :
      BTreeMap ResourceKey ResourceContent → PlanOperation → Prepared → Action W Prepared
  unfolding check_content
  check_upload contents (PlanOperation.upload key local) p =
      check_content key local (BTreeMap.get key contents) p
  check_upload contents _ p = return p

  unfoldable pub check_uploads :
      BTreeMap ResourceKey ResourceContent → List PlanOperation → Prepared → Action W Prepared
  unfolding check_upload
  check_uploads contents [] p = return p
  check_uploads contents (operation ∷ operations) p =
      check_upload contents operation p >>= (λ p'. check_uploads contents operations p')
