-- ===== src/Runtime/Publish/OnHeads.antt =====
-- The heads after a publication on top of them (src/runtime.rs).
use rollforward.Prelude.{
  String, Bytes, false, ◌≡◌, refl, sym, ◌∙◌, ap, none, [], ◌∷◌, list_ord, nat_ord, list_eq, nat_eq,
  any, contains,
}
use rollforward.Collections.BTreeMap
use rollforward.Collections.BTreeSet
use rollforward.Collections.BTreeSet.Canonical.{from_list-sorted}
use rollforward.Errors.{Result, ok, SyncError}
use rollforward.Types.{ResourceKey, ResourceKind, Commit}
use rollforward.Foreign.{Hashing}
use rollforward.Text.Document.{Yrs}
use rollforward.Runtime.State.{RuntimeState, record_commit, heads, resource_commits}
use rollforward.Runtime.Heads.{heads-IsSorted}
use rollforward.Runtime.Heads.Advance.{IsKeyed, heads-record_commit}
use rollforward.Runtime.Action.{Adapters, Machine}
use rollforward.Runtime.Codecs.{Codecs}
use rollforward.Runtime.Publish.{bump, publish_bytes}
use rollforward.Runtime.Publish.Atomic.{Recorded, publish_bytes-Recorded}

heads-bump : (state : RuntimeState) (key : ResourceKey) → heads (bump state) key ≡ heads state key
unfolding bump heads resource_commits
heads-bump state key = refl

commits-bump : (state : RuntimeState) → (bump state).commits ≡ state.commits
unfolding bump
commits-bump state = refl

module _ (before : RuntimeState) (key : ResourceKey) (commit : Commit)
    (keyed : IsKeyed before.commits) (fresh : BTreeMap.get commit.id before.commits ≡ none)
    (unnamed : any (λ c. contains c.parents commit.id) (resource_commits before key) ≡ false) where
  -- What a publication records on top of the heads is the only head.
  one_head :
      commit.resource ≡ key
      → commit.parents ≡ BTreeSet.from_list (heads before key)
      → heads (record_commit commit (bump before)) key ≡ commit.id ∷ []
  unfolding bump resource_commits heads
  one_head same parents =
      let on_top : commit.parents ≡ heads before commit.resource =
        parents
        ∙ from_list-sorted (heads before key) (heads-IsSorted before key)
        ∙ ap (heads before) (sym same) in
      let unnamed' : any (λ c. contains c.parents commit.id)
            (resource_commits before commit.resource)
          ≡ false =
        ap (λ r. any (λ c. contains c.parents commit.id) (resource_commits before r)) same
        ∙ unnamed in
      ap (heads (record_commit commit (bump before))) (sym same)
      ∙ heads-record_commit (bump before) commit keyed fresh unnamed' on_top

  Recorded-head :
      {W : Type 0} (author : String) (done : Machine W × Result Commit SyncError) (m' : Machine W)
      → Recorded before key (heads before key) author done
      → done ≡ (m', ok commit)
      → heads m'.state key ≡ commit.id ∷ []
  Recorded-head author done m' p e =
      let published : Recorded before key (heads before key) author (m', ok commit) = rw e at p in
      ap (λ s. heads s key) published.0 ∙ one_head published.1 published.2

module _ {W : Type 0} (a : Adapters W) (f : Hashing) (y : Yrs) (k : Codecs) (client_id : String)
    (key : ResourceKey) (m m' : Machine W) (commit : Commit) where
  -- After bytes are published on top of all heads of a resource, the new commit is its only head:
  -- whatever forks there were are settled. Commits are assumed stored under their ids, and the new id
  -- not to be in use.
  pub publish_bytes-heads :
      (kind : ResourceKind) (bytes : Bytes)
      → IsKeyed m.state.commits
      → publish_bytes a f y k client_id key kind bytes (heads m.state key) m ≡ (m', ok commit)
      → BTreeMap.get commit.id m.state.commits ≡ none
      → any (λ c. contains c.parents commit.id) (resource_commits m.state key) ≡ false
      → heads m'.state key ≡ commit.id ∷ []
  publish_bytes-heads kind bytes keyed done fresh unnamed =
      Recorded-head m.state key commit keyed fresh unnamed client_id _ m'
        (publish_bytes-Recorded a f y k client_id key kind bytes (heads m.state key) m) done
