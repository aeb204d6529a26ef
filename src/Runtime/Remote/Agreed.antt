-- ===== src/Runtime/Remote/Agreed.antt =====
-- The heads and the content that `remote_state` (src/runtime.rs) reports.
use rollforward.Prelude.{
  ℕ, String, true, ◌&&◌, ◌≡◌, ◌≤◌, ◌⊎◌, inl, inr, refl, sym, ◌∙◌, ap, some, List, [], ◌∷◌, arith,
  ◌==◌, list_eq, nat_eq, list_ord, nat_ord, length, all, filter_map, ==→eq, Bool-cases,
}
use rollforward.Collections.BTreeMap.Laws.{IsSorted}
use rollforward.Collections.BTreeSet.Canonical.{from_list-sorted}
use rollforward.Errors.{Result, ok, err, SyncError, ◌>>=◌}
use rollforward.Types.{
  ResourceKey, ResourceChange, RemoteResourceState, remote_present, remote_heads, key_eq, key_ord,
}
use rollforward.Foreign.{Hashing}
use rollforward.Text.Utf8.{as_bytes}
use rollforward.Text.Document.{Yrs}
use rollforward.Runtime.State.{RuntimeState, heads}
use rollforward.Runtime.Heads.{heads-IsSorted}
use rollforward.Runtime.Remote.{
  is_text_delta, snapshot_of, changes_at, text_doc, text_state, same_snapshots, binary_state,
  state_at, remote_state,
}

-- Every one of the changes is a snapshot of this content and size.
abbrev pub Snapshots : String → ℕ → List ResourceChange → Type 0
Snapshots content_id size [] = Unit
Snapshots content_id size (change ∷ changes) =
    (snapshot_of change ≡ some (content_id, size)) × Snapshots content_id size changes

length-filter_map_le :
    (changes : List ResourceChange) → length (filter_map snapshot_of changes) ≤ length changes
length-filter_map_le [] = omega arith
length-filter_map_le (change ∷ changes) = ground (arith, length-filter_map_le changes)

all-Snapshots :
    (content_id : String) (size : ℕ) (changes : List ResourceChange)
    → length (filter_map snapshot_of changes) ≡ length changes
    → all (λ value. (value.0 == content_id) && (value.1 == size)) (filter_map snapshot_of changes)
      ≡ true
    → Snapshots content_id size changes
all-Snapshots content_id size [] e h = tt
all-Snapshots content_id size (ResourceChange.binary_snapshot c n hashes ∷ changes) e h =
    ground (arith, all-Snapshots content_id size changes, ==→eq c content_id, ==→eq n size)
all-Snapshots content_id size (ResourceChange.text_delta _ ∷ changes) e h =
    absurd (omega (arith, length-filter_map_le changes))
all-Snapshots content_id size (ResourceChange.delete ∷ changes) e h =
    absurd (omega (arith, length-filter_map_le changes))

same_snapshots-heads :
    (changes : List ResourceChange) (ids : List String) (snapshots : List (String × ℕ))
    → IsSorted ids
    → remote_heads (same_snapshots changes ids snapshots) ≡ ids
unfolding same_snapshots remote_present
same_snapshots-heads changes ids [] sorted = refl
same_snapshots-heads changes ids (s ∷ snapshots) sorted =
    ground (arith, from_list-sorted ids sorted)

same_snapshots-agreed :
    (changes : List ResourceChange) (ids : List String) (snapshots : List (String × ℕ))
    → snapshots ≡ filter_map snapshot_of changes
    → (content_id : String) (size : ℕ) (reported : List String)
    → same_snapshots changes ids snapshots ≡ RemoteResourceState.present content_id size reported
    → (length (filter_map snapshot_of changes) ≡ length changes)
      × (all
            (λ value. (value.0 == content_id) && (value.1 == size))
            (filter_map snapshot_of changes)
          ≡ true)
unfolding same_snapshots remote_present
same_snapshots-agreed changes ids [] found content_id size reported e = absurd (grind (arith, e))
same_snapshots-agreed changes ids ((c, n) ∷ snapshots) found content_id size reported e =
    let agree = all (λ value. (value.0 == c) && (value.1 == n)) ((c, n) ∷ snapshots) in
    let same : agree ≡ true = ground (arith, e) in
    let count : length ((c, n) ∷ snapshots) ≡ length changes = ground (arith, e) in
    let id_eq : c ≡ content_id = ground (arith, e) in
    let size_eq : n ≡ size = ground (arith, e) in
    let test = λ (a : String) (b : ℕ) (l : List (String × ℕ)).
      all (λ value. (value.0 == a) && (value.1 == b)) l in
    (sym (ap length found) ∙ count, (λ i. test (sym id_eq i) (sym size_eq i) (sym found i)) ∙ same)

binary_state-agreed :
    (changes : List ResourceChange) (ids : List String) (content_id : String) (size : ℕ)
    (reported : List String)
    → binary_state changes ids ≡ RemoteResourceState.present content_id size reported
    → Snapshots content_id size changes
unfolding binary_state
binary_state-agreed changes ids content_id size reported e =
    let (count, same) =
      same_snapshots-agreed changes ids (filter_map snapshot_of changes) refl content_id size
        reported e in
    all-Snapshots content_id size changes count same

binary_state-heads :
    (changes : List ResourceChange) (ids : List String)
    → IsSorted ids
    → remote_heads (binary_state changes ids) ≡ ids
unfolding binary_state
binary_state-heads changes ids sorted = same_snapshots-heads changes ids _ sorted

module _ (f : Hashing) (y : Yrs) (state : RuntimeState) (key : ResourceKey) where
  text_heads :
      (ids : List String) (doc : Result y.Doc SyncError) (remote : RemoteResourceState)
      → IsSorted ids
      → (doc >>= (λ d. ok (text_state f y (as_bytes (y.get_string d)) ids))) ≡ ok remote
      → remote_heads remote ≡ ids
  unfolding text_state remote_present
  text_heads ids (err msg) remote sorted e = absurd (grind (arith, e))
  text_heads ids (ok doc) remote sorted e = ground (arith, e, from_list-sorted ids sorted)

  state_at-heads :
      (ids : List String) (remote : RemoteResourceState)
      → IsSorted ids
      → state_at f y state key ids ≡ ok remote
      → remote_heads remote ≡ ids
  unfolding state_at
  state_at-heads [] remote sorted e = ground (arith, e)
  state_at-heads (h ∷ hs) remote sorted e = ground (
    arith,
    e,
    binary_state-heads (changes_at state (h ∷ hs)) (h ∷ hs) sorted,
    text_heads (h ∷ hs) (text_doc y state key) remote sorted,
  )

  state_at-agreed :
      (ids : List String) (content_id : String) (size : ℕ) (reported : List String)
      → state_at f y state key ids ≡ ok (RemoteResourceState.present content_id size reported)
      → (all is_text_delta (changes_at state ids) ≡ true)
        ⊎ Snapshots content_id size (changes_at state ids)
  unfolding state_at
  state_at-agreed [] content_id size reported e = absurd (grind (arith, e))
  state_at-agreed (h ∷ hs) content_id size reported e =
      let changes = changes_at state (h ∷ hs) in
      elim (Bool-cases (all is_text_delta changes)) [
        | inl texts ↦ inl texts
        | inr other ↦
            let binary : binary_state changes (h ∷ hs)
                ≡ RemoteResourceState.present content_id size reported =
              ground (arith, e, other) in
            inr (binary_state-agreed changes (h ∷ hs) content_id size reported binary)
      ]

  -- The remote state lists exactly the heads of the resource.
  remote_heads-remote_state :
      (remote : RemoteResourceState)
      → remote_state f y state key ≡ ok remote
      → remote_heads remote ≡ heads state key
  unfolding remote_state
  remote_heads-remote_state remote e =
      state_at-heads (heads state key) remote (heads-IsSorted state key) e

  -- A content is reported only where every head is a text delta, so that the texts merge, or every
  -- head is a snapshot of that very content and size: a fork is never settled by a choice.
  pub remote_state-agreed :
      (content_id : String) (size : ℕ) (ids : List String)
      → remote_state f y state key ≡ ok (RemoteResourceState.present content_id size ids)
      → (all is_text_delta (changes_at state (heads state key)) ≡ true)
        ⊎ Snapshots content_id size (changes_at state (heads state key))
  unfolding remote_state
  remote_state-agreed content_id size ids e =
      state_at-agreed (heads state key) content_id size ids e
