-- ===== src/Runtime/Graph/Fuel.antt =====
-- The rounds that the walks of the commit graph take (src/runtime.rs).
use mathlib.Core.List.{reverse}
use rollforward.Prelude.{
  ℕ, zero, suc, ◌+◌, ◌≤◌, String, false, ◌≡◌, ◌≢◌, refl, none, some, List, [], ◌∷◌, ◌++◌, arith,
  list_eq, nat_eq, list_ord, nat_ord, if◌then◌else◌, length, length-append, length-reverse,
}
use rollforward.Collections.BTreeMap
use rollforward.Collections.BTreeMap.{BTreeMap, values}
use rollforward.Collections.BTreeSet
use rollforward.Types.{ResourceKey, Commit, key_eq}
use rollforward.Runtime.State.{
  RuntimeState, all_parents, parents_of, parents_within, descends, reach, rounds, is_descendant,
  reachable,
}

-- The parents that ids outside `visited` can still push.
weight : List String → BTreeMap String Commit → ℕ
weight visited [] = 0
weight visited ((id, commit) ∷ m) =
    let rest = weight visited m in
    if BTreeSet.member id visited then rest else length commit.parents + rest

cost : String → BTreeMap String Commit → ℕ
cost id m = elim (BTreeMap.get id m) [ none ↦ 0 | some commit ↦ length commit.parents ]

weight-none : (m : BTreeMap String Commit) → weight [] m ≡ length (all_parents (values m))
unfolding weight all_parents BTreeSet.member
weight-none [] = refl
weight-none ((id, commit) ∷ m) =
    omega (arith, weight-none m, length-append commit.parents (all_parents (values m)))

weight-insert_le :
    (id : String) (visited : List String) (m : BTreeMap String Commit)
    → weight (BTreeSet.insert id visited) m ≤ weight visited m
unfolding weight
weight-insert_le id visited [] = omega arith
weight-insert_le id visited ((j, commit) ∷ m) =
    ground (arith, weight-insert_le id visited m, BTreeSet.member-insert id j visited)

weight-insert :
    (id : String) (visited : List String) (m : BTreeMap String Commit)
    → BTreeSet.member id visited ≡ false
    → weight (BTreeSet.insert id visited) m + cost id m ≤ weight visited m
unfolding weight cost BTreeMap.get
weight-insert id visited [] h = omega arith
weight-insert id visited ((j, commit) ∷ m) h = ground (
  arith,
  weight-insert id visited m h,
  weight-insert_le id visited m,
  BTreeSet.member-insert id j visited,
)

module _ (m : BTreeMap String Commit) (edges : String → List String)
    (fits : (id : String) → length (edges id) ≤ cost id m) where
  pushed_le :
      (id : String) (pending visited : List String)
      → BTreeSet.member id visited ≡ false
      → length (reverse (edges id) ++ pending) + weight (BTreeSet.insert id visited) m
        ≤ length pending + weight visited m
  pushed_le id pending visited h = omega (
    arith,
    fits id,
    weight-insert id visited m h,
    length-append (reverse (edges id)) pending,
    length-reverse (edges id),
  )

  descends-some :
      (ancestor : String) (fuel : ℕ) (pending visited : List String)
      → 1 + length pending + weight visited m ≤ fuel
      → descends edges ancestor fuel pending visited ≢ none
  unfolding descends
  descends-some ancestor zero pending visited h = absurd (omega arith)
  descends-some ancestor (suc fuel) [] visited h = ground arith
  descends-some ancestor (suc fuel) (id ∷ pending) visited h = ground (
    arith,
    pushed_le id pending visited,
    descends-some ancestor fuel pending visited,
    descends-some ancestor fuel (reverse (edges id) ++ pending) (BTreeSet.insert id visited),
  )

  reach-some :
      (fuel : ℕ) (pending visited : List String)
      → 1 + length pending + weight visited m ≤ fuel
      → reach edges fuel pending visited ≢ none
  unfolding reach
  reach-some zero pending visited h = absurd (omega arith)
  reach-some (suc fuel) [] visited h = ground arith
  reach-some (suc fuel) (id ∷ pending) visited h = ground (
    arith,
    pushed_le id pending visited,
    reach-some fuel pending visited,
    reach-some fuel (reverse (edges id) ++ pending) (BTreeSet.insert id visited),
  )

parents_of-fits :
    (state : RuntimeState) (id : String) → length (parents_of state id) ≤ cost id state.commits
unfolding parents_of cost
parents_of-fits state id = ground arith

parents_within-fits :
    (state : RuntimeState) (key : ResourceKey) (id : String)
    → length (parents_within state key id) ≤ cost id state.commits
unfolding parents_within cost
parents_within-fits state key id = ground arith

pub reach-parents_of-some :
    (state : RuntimeState) (id : String)
    → reach (parents_of state) (rounds state) (id ∷ []) [] ≢ none
unfolding rounds
reach-parents_of-some state id =
    reach-some state.commits (parents_of state) (parents_of-fits state) _ (id ∷ []) []
      (omega (arith, weight-none state.commits))

-- Within the rounds given, which the number of recorded parents bounds, every walk comes to an end:
-- `is_descendant` has an answer, and so have the ids that `text_doc_at` collects.
pub walks-end :
    (state : RuntimeState) (key : ResourceKey) (id ancestor : String)
    → (is_descendant state id ancestor ≢ none) × (reachable state key id ≢ none)
unfolding is_descendant reachable rounds
walks-end state key id ancestor =
    let whole = weight-none state.commits in
    (
      descends-some state.commits (parents_of state) (parents_of-fits state) ancestor _ (id ∷ []) []
          (omega (arith, whole)),
      reach-some state.commits (parents_within state key) (parents_within-fits state key) _
          (id ∷ []) [] (omega (arith, whole)),
    )
