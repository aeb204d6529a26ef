-- ===== src/Runtime/Heads/Advance.antt =====
-- The heads once a new commit is recorded (src/runtime.rs).
use rollforward.Prelude.{
  String, Bool, true, false, not, ◌&&◌, ◌||◌, ◌≡◌, ◌≢◌, refl, none, List, [], ◌∷◌, arith, ◌==◌,
  list_eq, nat_eq, list_ord, nat_ord, any, contains, filter, ==_refl, ne→==,
}
use rollforward.Collections.BTreeMap
use rollforward.Collections.BTreeMap.{BTreeMap, keys, values}
use rollforward.Collections.BTreeSet.{member}
use rollforward.Collections.BTreeSet.Canonical.{eq_of_member}
use rollforward.Types.{ResourceKey, Commit, key_eq}
use rollforward.Runtime.State.{RuntimeState, resource_commits, heads, record_commit}
use rollforward.Runtime.Heads.{heads-leaves, heads-IsSorted, member-contains}

member_one : (id j : String) → member id (j ∷ []) ≡ (j == id)
unfolding member
member_one id j = ground arith

-- Every commit is stored under its id.
abbrev pub IsKeyed : BTreeMap String Commit → Type 0
IsKeyed [] = Unit
IsKeyed ((id, commit) ∷ m) = (commit.id ≡ id) × IsKeyed m

module _ (commit : Commit) (p q : Commit → Bool) where
  filter_values : BTreeMap String Commit → List Commit
  filter_values m = filter p (values m)

  -- A test over the commits that pass another, once one more is recorded.
  any-insert :
      (m : BTreeMap String Commit)
      → BTreeMap.get commit.id m ≡ none
      → any q (filter p (values (BTreeMap.insert commit.id commit m)))
        ≡ ((p commit && q commit) || any q (filter p (values m)))
  unfolding BTreeMap.get BTreeMap.insert
  any-insert [] h = ground arith
  any-insert ((id, c) ∷ m) h = ground (arith, any-insert m)

  filter-insert_other :
      (m : BTreeMap String Commit)
      → BTreeMap.get commit.id m ≡ none
      → p commit ≡ false
      → filter p (values (BTreeMap.insert commit.id commit m)) ≡ filter p (values m)
  unfolding BTreeMap.get BTreeMap.insert
  filter-insert_other [] h n = ground arith
  filter-insert_other ((id, c) ∷ m) h n = ground (arith, filter-insert_other m)

-- A commit with an id is stored only under that id.
any_id-none :
    (p : Commit → Bool) (id : String) (m : BTreeMap String Commit)
    → IsKeyed m
    → BTreeMap.get id m ≡ none
    → any (λ commit. commit.id == id) (filter p (values m)) ≡ false
unfolding BTreeMap.get
any_id-none p id [] k h = refl
any_id-none p id ((j, c) ∷ m) (e, k) h =
    let differ : c.id ≢ id = ground (arith, e) in
    ground (arith, any_id-none p id m k, ne→== c.id id differ)

no_commit_yet :
    (state : RuntimeState) (key : ResourceKey) (new id : String)
    → IsKeyed state.commits
    → BTreeMap.get new state.commits ≡ none
    → new ≡ id
    → any (λ c. c.id == id) (resource_commits state key) ≡ false
unfolding resource_commits
no_commit_yet state key new id keyed fresh e = any_id-none _ id state.commits keyed (rw e at fresh)

no_child_yet :
    (commits : List Commit) (new id : String)
    → any (λ c. contains c.parents new) commits ≡ false
    → new ≡ id
    → any (λ c. contains c.parents id) commits ≡ false
no_child_yet commits new id h e = rw e at h

-- Recording a commit under a new id moves only its own resource's heads.
pub heads-record_commit_other :
    (state : RuntimeState) (commit : Commit) (key : ResourceKey)
    → BTreeMap.get commit.id state.commits ≡ none
    → commit.resource ≢ key
    → heads (record_commit commit state) key ≡ heads state key
unfolding heads resource_commits record_commit
heads-record_commit_other state commit key fresh differ =
    let same =
      filter-insert_other commit (λ c. c.resource == key) (λ c. true) state.commits fresh
        (ne→== commit.resource key differ) in
    rw same

-- The leaves once a new commit is recorded.
leaves-record_commit :
    (state : RuntimeState) (commit : Commit) (id : String)
    → BTreeMap.get commit.id state.commits ≡ none
    → member id (heads (record_commit commit state) commit.resource) ≡ (
        ((commit.id == id) || any (λ c. c.id == id) (resource_commits state commit.resource))
        && not (
            contains commit.parents id
            || any (λ c. contains c.parents id) (resource_commits state commit.resource)))
unfolding record_commit resource_commits
leaves-record_commit state commit id fresh =
    let p = λ (c : Commit). c.resource == commit.resource in
    let own : p commit ≡ true = ==_refl commit.resource in
    let ids = any-insert commit p (λ c. c.id == id) state.commits fresh in
    let parents = any-insert commit p (λ c. contains c.parents id) state.commits fresh in
    let leaves = heads-leaves (record_commit commit state) commit.resource id in
    rw (ids, parents, own) at leaves

-- A commit whose parents are the heads of its resource becomes the only head, whatever forks there
-- were: if commits are stored under their ids, and its id is new and nowhere named as a parent.
pub heads-record_commit :
    (state : RuntimeState) (commit : Commit)
    → IsKeyed state.commits
    → BTreeMap.get commit.id state.commits ≡ none
    → any (λ c. contains c.parents commit.id) (resource_commits state commit.resource) ≡ false
    → commit.parents ≡ heads state commit.resource
    → heads (record_commit commit state) commit.resource ≡ commit.id ∷ []
heads-record_commit state commit keyed fresh unnamed on_top =
    let key = commit.resource in
    eq_of_member _ _ (heads-IsSorted (record_commit commit state) key) (tt, tt)
      (λ id. ground (
        arith,
        leaves-record_commit state commit id fresh,
        heads-leaves state key id,
        member_one id commit.id,
        on_top,
        member-contains id commit.parents,
        no_commit_yet state key commit.id id keyed fresh,
        no_child_yet (resource_commits state key) commit.id id unnamed,
      ))
