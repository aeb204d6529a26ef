-- ===== src/Runtime/Upload/Changes.antt =====
-- The change that an upload publishes (src/runtime.rs, `execute`).
use rollforward.Prelude.{
  String, Bytes, Option, none, some, List, [], str, list_ord, nat_ord, length, unwrap_or,
}
use rollforward.Collections.BTreeMap
use rollforward.Collections.BTreeMap.{BTreeMap}
use rollforward.Errors.{Result, ok, SyncError, io_error, ok_or, ◌>>=◌}
use rollforward.Types.{
  ResourceKey, ResourceKind, ResourceChange, PlanOperation, ResourceContent, encoded, key_ord,
}
use rollforward.Text.Document.{from_baseline_and_deltas, set_text}
use rollforward.Runtime.State.{RuntimeState}
use rollforward.Runtime.Remote.{text_doc}
use rollforward.Runtime.Progress.{SyncRuntime}
use rollforward.Runtime.Upload.{text_of}

-- The document's bytes that are kept for a resource with a baseline.
unfoldable pub kept_text : RuntimeState → ResourceKey → Option Bytes
kept_text state key = elim (BTreeMap.get (encoded key) state.baselines) [
  | none ↦ none
  | some _ ↦ BTreeMap.get (encoded key) state.text_states
]

-- The panic of an index into a map, which the checks before rule out.
abbrev pub indexed : {A : Type 0} → Option A → Result A SyncError
indexed = ok_or (io_error (str "no entry found for key"))

module _ {W : Type 0} (r : SyncRuntime W) where
  -- The document that an upload edits.
  unfoldable pub upload_document :
      RuntimeState → ResourceKey → Option Bytes → Result r.yrs.Doc SyncError
  unfolding kept_text
  upload_document state key (some merged) = text_doc r.yrs state key
  upload_document state key none = elim (kept_text state key) [
    | none ↦ ok r.yrs.new_doc
    | some full ↦ from_baseline_and_deltas r.yrs (some full) []
  ]

  -- The change of a content, from the chunks of its manifest or as an edit of its document.
  unfoldable pub content_change :
      RuntimeState
      → ResourceKey
      → ResourceContent
      → BTreeMap ResourceKey (List String)
      → Option Bytes
      → ResourceKind
      → Result ResourceChange SyncError
  unfolding upload_document text_of
  content_change state key content manifests merged ResourceKind.binary = ok (
      ResourceChange.binary_snapshot (r.hashing.blake3 content.bytes) (length content.bytes)
        (unwrap_or [] (BTreeMap.get key manifests)))
  content_change state key content manifests merged ResourceKind.text = do
    doc ← upload_document state key merged
    text ← text_of r.codecs (unwrap_or content.bytes merged)
    ok (ResourceChange.text_delta (set_text r.yrs doc text).0)

  unfoldable pub upload_change :
      BTreeMap ResourceKey ResourceContent
      → BTreeMap ResourceKey Bytes
      → BTreeMap ResourceKey (List String)
      → RuntimeState
      → PlanOperation
      → Result (Option ResourceChange) SyncError
  unfolding content_change
  upload_change contents merged_texts manifests state (PlanOperation.publish_delete _) =
      ok (some ResourceChange.delete)
  upload_change contents merged_texts manifests state (PlanOperation.upload key _) = do
    content ← indexed (BTreeMap.get key contents)
    change ← content_change state key content manifests (BTreeMap.get key merged_texts) content.kind
    ok (some change)
  upload_change contents merged_texts manifests state _ = ok none

  -- `manifests.remove(&key)`, which only the change of a binary content does.
  unfoldable pub used_manifest :
      ResourceKey
      → Option ResourceChange
      → BTreeMap ResourceKey (List String)
      → BTreeMap ResourceKey (List String)
  used_manifest key (some (ResourceChange.binary_snapshot _ _ _)) manifests =
      BTreeMap.remove key manifests
  used_manifest key (some (ResourceChange.text_delta _)) manifests = manifests
  used_manifest key (some ResourceChange.delete) manifests = manifests
  used_manifest key none manifests = manifests
