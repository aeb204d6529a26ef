-- ===== src/Runtime/Remote/Settled.antt =====
-- `remote_state` (src/runtime.rs) once a commit is recorded on top of all heads of its resource.
use rollforward.Prelude.{
  String, false, ◌≡◌, refl, none, [], ◌∷◌, arith, list_eq, nat_eq, list_ord, nat_ord, length, any,
  contains, ==_refl,
}
use rollforward.Collections.BTreeMap
use rollforward.Collections.BTreeMap.Laws.{get-insert_self}
use rollforward.Collections.BTreeSet
use rollforward.Errors.{Result, ok, SyncError, ◌>>=◌}
use rollforward.Types.{
  ResourceKey, Commit, ResourceChange, RemoteResourceState, remote_present, key_eq, key_ord,
}
use rollforward.Foreign.{Hashing}
use rollforward.Text.Utf8.{as_bytes}
use rollforward.Text.Document.{Yrs}
use rollforward.Runtime.State.{RuntimeState, resource_commits, heads, record_commit}
use rollforward.Runtime.Heads.Advance.{IsKeyed, heads-record_commit}
use rollforward.Runtime.Remote.{
  changes_at, text_doc, text_state, binary_state, state_at, remote_state,
}

changes_at-one :
    (state : RuntimeState) (commit : Commit)
    → changes_at (record_commit commit state) (commit.id ∷ []) ≡ commit.change ∷ []
unfolding changes_at record_commit
changes_at-one state commit = ground (arith, get-insert_self commit.id commit state.commits)

module _ (f : Hashing) (y : Yrs) where
  -- What a change alone makes of a resource.
  abbrev pub settled :
      RuntimeState → ResourceKey → String → ResourceChange → Result RemoteResourceState SyncError
  settled state key id ResourceChange.delete = ok (RemoteResourceState.deleted (id ∷ []))
  settled state key id (ResourceChange.binary_snapshot content_id size _) =
      ok (RemoteResourceState.present content_id size (id ∷ []))
  settled state key id (ResourceChange.text_delta _) = text_doc y state key >>= (λ doc. ok (
      RemoteResourceState.present (f.blake3 (as_bytes (y.get_string doc)))
        (length (as_bytes (y.get_string doc))) (id ∷ [])))

  state_at-one :
      (state : RuntimeState) (key : ResourceKey) (id : String) (change : ResourceChange)
      → changes_at state (id ∷ []) ≡ change ∷ []
      → state_at f y state key (id ∷ []) ≡ settled state key id change
  unfolding state_at binary_state text_state remote_present BTreeSet.from_list BTreeSet.insert
  state_at-one state key id ResourceChange.delete e = rw e refl
  state_at-one state key id (ResourceChange.binary_snapshot content_id size _) e =
      rw e (ground (arith, ==_refl content_id, ==_refl size))
  state_at-one state key id (ResourceChange.text_delta _) e = rw e refl

  one_head :
      (state : RuntimeState) (commit : Commit)
      → heads (record_commit commit state) commit.resource ≡ commit.id ∷ []
      → remote_state f y (record_commit commit state) commit.resource
        ≡ settled (record_commit commit state) commit.resource commit.id commit.change
  unfolding remote_state
  one_head state commit e = rw e (
      state_at-one (record_commit commit state) commit.resource commit.id commit.change
        (changes_at-one state commit))

  -- A commit on top of all heads settles its resource, whatever forks there were: the remote state is
  -- then the commit's deletion, its snapshot, or the merged text, with the commit as the one head.
  -- Commits are assumed stored under their ids, and the new id not to be in use.
  pub remote_state-record_commit :
      (state : RuntimeState) (commit : Commit)
      → IsKeyed state.commits
      → BTreeMap.get commit.id state.commits ≡ none
      → any (λ c. contains c.parents commit.id) (resource_commits state commit.resource) ≡ false
      → commit.parents ≡ heads state commit.resource
      → remote_state f y (record_commit commit state) commit.resource
        ≡ settled (record_commit commit state) commit.resource commit.id commit.change
  remote_state-record_commit state commit keyed fresh unnamed on_top =
      one_head state commit (heads-record_commit state commit keyed fresh unnamed on_top)
