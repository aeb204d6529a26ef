-- ===== src/Runtime/Remote.antt =====
-- What the recorded commits say of a resource: `text_doc`, `text_doc_at`, `remote_state` and
-- `remote_pairs` of `RuntimeState` (src/runtime.rs).
pub mod Settled
pub mod Agreed
use rollforward.Prelude.{
  ℕ, ◌+◌, String, Bytes, Bool, true, false, ◌&&◌, Option, none, some, List, [], ◌∷◌, map, ◌==◌,
  list_eq, nat_eq, list_ord, nat_ord, if◌then◌else◌, length, all, filter_map, unwrap_or, Ord,
}
use rollforward.Collections.BTreeMap
use rollforward.Collections.BTreeSet
use rollforward.Collections.Sort.{sort_by}
use rollforward.Errors.{Result, ok, err, SyncError, ◌>>=◌, traverse}
use rollforward.Types.{
  ResourceKey, Commit, ResourceChange, RemoteResourceState, remote_present, key_eq, key_ord,
}
use rollforward.Foreign.{Hashing}
use rollforward.Text.Utf8.{as_bytes}
use rollforward.Text.Document.{Yrs, from_baseline_and_deltas}
use rollforward.Runtime.State.{RuntimeState, resource_commits, heads, remote_keys, reachable}

abbrev pub is_delete : ResourceChange → Bool
is_delete ResourceChange.delete = true
is_delete _ = false

abbrev pub is_text_delta : ResourceChange → Bool
is_text_delta (ResourceChange.text_delta _) = true
is_text_delta _ = false

abbrev pub snapshot_of : ResourceChange → Option (String × ℕ)
snapshot_of (ResourceChange.binary_snapshot content_id size _) = some (content_id, size)
snapshot_of _ = none

-- The delta of a text commit, under its id.
abbrev pub delta_of : Commit → Option (String × Bytes)
delta_of commit = elim commit.change [
  | ResourceChange.text_delta delta ↦ some (commit.id, delta)
  | ResourceChange.binary_snapshot _ _ _ ↦ none
  | ResourceChange.delete ↦ none
]

abbrev id_lt : String → String → Bool
id_lt = Ord.lt (list_ord ⦃o = nat_ord⦄)

-- `deltas.sort_by(|left, right| left.0.cmp(&right.0))`, and then the deltas alone.
unfoldable pub in_id_order : List (String × Bytes) → List Bytes
in_id_order deltas = map (λ d. d.1) (sort_by (λ left right. id_lt left.0 right.0) deltas)

-- The changes of the commits with these ids.
unfoldable pub changes_at : RuntimeState → List String → List ResourceChange
changes_at state ids =
    filter_map
      (λ id. elim (BTreeMap.get id state.commits) [
        | none ↦ none
        | some commit ↦ some commit.change
      ])
      ids

module _ (y : Yrs) where
  unfoldable pub text_doc : RuntimeState → ResourceKey → Result y.Doc SyncError
  unfolding in_id_order
  text_doc state key =
      from_baseline_and_deltas y none
        (in_id_order (filter_map delta_of (resource_commits state key)))

  -- `text_doc_at`, over the ids that its walk reaches.
  unfoldable pub text_doc_at : RuntimeState → ResourceKey → String → Result y.Doc SyncError
  unfolding in_id_order
  text_doc_at state key head =
      let ids = unwrap_or [] (reachable state key head) in
      from_baseline_and_deltas y none (
        in_id_order (
          filter_map
            (λ id. elim (BTreeMap.get id state.commits) [
              | none ↦ none
              | some commit ↦ elim (delta_of commit) [ none ↦ none | some d ↦ some (id, d.1) ]
            ])
            ids))

-- The end of `remote_state`: one binary snapshot under every head, or a fork.
unfoldable pub same_snapshots :
    List ResourceChange → List String → List (String × ℕ) → RemoteResourceState
unfolding remote_present
same_snapshots changes heads [] = RemoteResourceState.forked heads
same_snapshots changes heads (s ∷ snapshots) =
    if (length (s ∷ snapshots) == length changes)
      && all (λ value. (value.0 == s.0) && (value.1 == s.1)) (s ∷ snapshots)
    then remote_present s.0 s.1 heads
    else RemoteResourceState.forked heads

unfoldable pub binary_state : List ResourceChange → List String → RemoteResourceState
unfolding same_snapshots
binary_state changes heads = same_snapshots changes heads (filter_map snapshot_of changes)

module _ (f : Hashing) (y : Yrs) where
  -- A text resource, its documents merged.
  unfoldable pub text_state : Bytes → List String → RemoteResourceState
  unfolding remote_present
  text_state text heads = remote_present (f.blake3 text) (length text) heads

  -- `remote_state`, from the heads on.
  unfoldable pub state_at :
      RuntimeState → ResourceKey → List String → Result RemoteResourceState SyncError
  unfolding changes_at binary_state text_state text_doc
  state_at state key [] = ok RemoteResourceState.missing
  state_at state key (h ∷ hs) =
      let changes = changes_at state (h ∷ hs) in
      if all is_delete changes
      then ok (RemoteResourceState.deleted (h ∷ hs))
      else if all is_text_delta changes
      then text_doc y state key >>= (λ doc. ok (text_state (as_bytes (y.get_string doc)) (h ∷ hs)))
      else ok (binary_state changes (h ∷ hs))

  unfoldable pub remote_state : RuntimeState → ResourceKey → Result RemoteResourceState SyncError
  unfolding state_at
  remote_state state key = state_at state key (heads state key)

  unfoldable pub remote_pairs :
      RuntimeState → List String → Result (List (ResourceKey × RemoteResourceState)) SyncError
  unfolding remote_state traverse
  remote_pairs state scopes =
      traverse (λ key. do remote ← remote_state state key; ok (key, remote))
        (remote_keys state scopes)
