-- ===== src/Runtime/Publish/Atomic.antt =====
-- How `publish_bytes` and `publish_delete` (src/runtime.rs) change the state, on every outcome.
use rollforward.Prelude.{
  ℕ, String, Bytes, ◌≡◌, refl, sym, ◌∙◌, ap, List, [], ◌∷◌, list_ord, nat_ord,
}
use rollforward.Collections.BTreeSet
use rollforward.Errors.{Result, ok, err, SyncError}
use rollforward.Types.{
  ResourceKey, ResourceKind, Commit, CommitBatch, CommitBatchResult, create_commit,
}
use rollforward.Foreign.{Hashing}
use rollforward.Text.Document.{Yrs}
use rollforward.Runtime.State.{RuntimeState, record_commit}
use rollforward.Runtime.Action.{
  Action, Adapters, Machine, Call, ◌>>=◌, get_state, read_world, modify, call, return, continue,
}
use rollforward.Runtime.Action.Steps.{
  Keeps, continue-cases, Keeps-bind, Keeps-get_state, Keeps-call, Keeps-outcome, Keeps-return,
}
use rollforward.Runtime.Codecs.{Codecs}
use rollforward.Runtime.Publish.{
  Change, bump, next_counter, binary_change, text_change, change_of, put_commit, publish_bytes,
  publish_delete,
}

SameState : RuntimeState → RuntimeState → Type 0
SameState s t = t ≡ s

same_refl : (s : RuntimeState) → SameState s s
unfolding SameState
same_refl s = refl

same_trans : (s t u : RuntimeState) → SameState s t → SameState t u → SameState s u
unfolding SameState
same_trans s t u h k = k ∙ h

state-call : {W A : Type 0} (c : Call W A) (m : Machine W) → (call c m).0.state ≡ m.state
unfolding call
state-call c m = refl

-- On an error only the counter has moved. On success the state has one commit more, with the
-- resource, the parents in order, the author and the counter that were to be published.
abbrev pub Recorded :
    {W : Type 0}
    → RuntimeState
    → ResourceKey
    → List String
    → String
    → Machine W × Result Commit SyncError
    → Type 0
Recorded before key parents author (m, err e) = m.state ≡ bump before
Recorded before key parents author (m, ok commit) =
    (m.state ≡ record_commit commit (bump before))
    × (commit.resource ≡ key)
    × (commit.parents ≡ BTreeSet.from_list parents)
    × (commit.author ≡ author)
    × (commit.client_counter ≡ (bump before).counter)

-- The remote's last call was for a batch of this one commit, with the packs and the indexes of the
-- change that was prepared, and the remote took it.
abbrev pub Sent :
    {W : Type 0}
    → Adapters W
    → Machine W × Result Change SyncError
    → Machine W × Result Commit SyncError
    → Type 0
Sent a prepared (m, err e) = Unit
Sent a (n, err e) (m, ok commit) = ⊥
Sent a (n, ok c) (m, ok commit) =
    (commit.change ≡ c.change)
    × (sent : CommitBatchResult) × (a.commit_batch
          (record { commits = commit ∷ []; packs = c.packs; indexes = c.indexes }) n.world
        ≡ (m.world, ok sent))

module _ {W : Type 0} (a : Adapters W) (f : Hashing) (y : Yrs) (k : Codecs)
    (client_id : String) where
  binary_change-same :
      (bytes : Bytes)
      → Keeps {W = W} SameState same_refl same_trans (binary_change a f y k client_id bytes)
  unfolding binary_change
  binary_change-same bytes =
      Keeps-bind SameState same_refl same_trans _ _ (Keeps-call SameState same_refl same_trans _)
        (λ located.
          Keeps-bind SameState same_refl same_trans _ _
            (Keeps-outcome SameState same_refl same_trans _)
            (λ indexes. Keeps-return SameState same_refl same_trans _))

  text_change-same :
      (key : ResourceKey) (bytes : Bytes)
      → Keeps {W = W} SameState same_refl same_trans (text_change a f y k client_id key bytes)
  unfolding text_change
  text_change-same key bytes =
      Keeps-bind SameState same_refl same_trans _ _ (Keeps-get_state SameState same_refl same_trans)
        (λ state.
          Keeps-bind SameState same_refl same_trans _ _
            (Keeps-outcome SameState same_refl same_trans _)
            (λ document.
              Keeps-bind SameState same_refl same_trans _ _
                (Keeps-outcome SameState same_refl same_trans _)
                (λ text. Keeps-return SameState same_refl same_trans _)))

  change_of-same :
      (kind : ResourceKind) (key : ResourceKey) (bytes : Bytes)
      → Keeps {W = W} SameState same_refl same_trans (change_of a f y k client_id kind key bytes)
  unfolding change_of
  change_of-same ResourceKind.binary key bytes = binary_change-same bytes
  change_of-same ResourceKind.text key bytes = text_change-same key bytes

  put_commit-Recorded :
      (before : RuntimeState) (key : ResourceKey) (parents : List String) (c : Change)
      (m : Machine W)
      → m.state ≡ bump before
      → Recorded before key parents client_id
          (put_commit a f y k client_id key parents (bump before).counter c m)
  unfolding put_commit ◌>>=◌ continue read_world modify return create_commit
  put_commit-Recorded before key parents c m h =
      let commit =
        create_commit f.blake3 f.commit_bytes (a.now_millis m.world) key parents client_id
          (bump before).counter c.change in
      let recording : CommitBatchResult → Action W Commit =
        λ sent m'. (record m' { state = record_commit commit m'.state }, ok commit) in
      continue-cases (Recorded before key parents client_id) recording (call _ m)
        (λ m' e failed. ap (λ d. d.0.state) (sym failed) ∙ state-call _ m ∙ h)
        (λ m' sent done. (
          ap (record_commit commit) (ap (λ d. d.0.state) (sym done) ∙ state-call _ m ∙ h),
          refl,
          refl,
          refl,
          refl,
        ))

  pub publish_bytes-Recorded :
      (key : ResourceKey) (kind : ResourceKind) (bytes : Bytes) (parents : List String)
      (m : Machine W)
      → Recorded m.state key parents client_id
          (publish_bytes a f y k client_id key kind bytes parents m)
  unfolding publish_bytes next_counter SameState ◌>>=◌ continue get_state modify return
  publish_bytes-Recorded key kind bytes parents m =
      let bumped : Machine W = record m { state = bump m.state } in
      let same = change_of-same kind key bytes bumped in
      continue-cases (Recorded m.state key parents client_id)
        (λ c. put_commit a f y k client_id key parents (bump m.state).counter c)
        (change_of a f y k client_id kind key bytes bumped)
        (λ m' e failed. ap (λ d. d.0.state) (sym failed) ∙ same)
        (λ m' c done.
          put_commit-Recorded m.state key parents c m' (ap (λ d. d.0.state) (sym done) ∙ same))

  pub publish_delete-Recorded :
      (key : ResourceKey) (parents : List String) (m : Machine W)
      → Recorded m.state key parents client_id (publish_delete a f y k client_id key parents m)
  unfolding publish_delete next_counter ◌>>=◌ continue get_state modify return
  publish_delete-Recorded key parents m = put_commit-Recorded m.state key parents _ _ refl

  put_commit-Sent :
      (key : ResourceKey) (parents : List String) (counter : ℕ) (c : Change) (n : Machine W)
      → Sent a (n, ok c) (put_commit a f y k client_id key parents counter c n)
  unfolding put_commit call ◌>>=◌ continue read_world modify return create_commit
  put_commit-Sent key parents counter c n =
      let commit =
        create_commit f.blake3 f.commit_bytes (a.now_millis n.world) key parents client_id counter
          c.change in
      let recording : CommitBatchResult → Action W Commit =
        λ sent m'. (record m' { state = record_commit commit m'.state }, ok commit) in
      let batch : CommitBatch = record {
        commits = commit ∷ [];
        packs = c.packs;
        indexes = c.indexes;
      } in
      continue-cases (Sent a (n, ok c)) recording (call (a.commit_batch batch) n)
        (λ m' e failed. tt) (λ m' sent done. (refl, sent, ap (λ d. (d.0.world, d.1)) done))

  prepared-Sent :
      (key : ResourceKey) (parents : List String) (counter : ℕ)
      (prepared : Machine W × Result Change SyncError)
      → Sent a prepared
          (continue (λ c. put_commit a f y k client_id key parents counter c) prepared)
  unfolding continue
  prepared-Sent key parents counter (n, ok c) = put_commit-Sent key parents counter c n
  prepared-Sent key parents counter (n, err e) = tt

  -- A publication of bytes is all or nothing. Whichever call fails, the state differs by the counter
  -- only. Where it succeeds, the state differs by the counter and by one commit with the resource, the
  -- parents, the author and the counter that were to be published; and the remote has taken a batch of
  -- just that commit, with the change that was made of the bytes, its packs and its indexes.
  pub publish_bytes-Published :
      (key : ResourceKey) (kind : ResourceKind) (bytes : Bytes) (parents : List String)
      (m : Machine W)
      → Recorded m.state key parents client_id
          (publish_bytes a f y k client_id key kind bytes parents m)
        × Sent a
            (change_of a f y k client_id kind key bytes (record m { state = bump m.state }))
            (publish_bytes a f y k client_id key kind bytes parents m)
  unfolding publish_bytes next_counter ◌>>=◌ continue get_state modify return
  publish_bytes-Published key kind bytes parents m = (
    publish_bytes-Recorded key kind bytes parents m,
    prepared-Sent key parents (bump m.state).counter
        (change_of a f y k client_id kind key bytes (record m { state = bump m.state })),
  )
