-- ===== src/Runtime/Heads.antt =====
-- The heads of a resource as the leaves of its commit graph (src/runtime.rs).
pub mod Advance
use mathlib.Core.Logic.{ite}
use rollforward.Prelude.{
  String, Bool, true, false, not, ◌&&◌, ◌||◌, ◌≡◌, ◌≢◌, refl, sym, ◌∙◌, ap, Option, none, some,
  List, [], ◌∷◌, ◌++◌, map, arith, ◌==◌, list_eq, nat_eq, list_ord, nat_ord, if◌then◌else◌, any,
  contains, filter, Ord, Bool-cases, inl, inr,
}
use rollforward.Collections.BTreeMap
use rollforward.Collections.BTreeMap.{BTreeMap, keys, values}
use rollforward.Collections.BTreeMap.Laws.{IsBelow, IsSorted, IsBelow-trans}
use rollforward.Collections.BTreeMap.Canonical.{get-IsBelow}
use rollforward.Collections.BTreeSet
use rollforward.Collections.BTreeSet.{member}
use rollforward.Types.{ResourceKey, Commit, key_eq}
use rollforward.Runtime.State.{RuntimeState, resource_commits, all_parents, heads}

ids_of : List Commit → List String
ids_of commits = map (λ commit. commit.id) commits

member-ids_of :
    (id : String) (commits : List Commit)
    → member id (ids_of commits) ≡ any (λ commit. commit.id == id) commits
unfolding member ids_of
member-ids_of id [] = refl
member-ids_of id (commit ∷ commits) = ground (arith, member-ids_of id commits)

pub member-contains : (id : String) (l : List String) → member id l ≡ contains l id
unfolding member
member-contains id [] = refl
member-contains id (j ∷ l) = ground (arith, member-contains id l)

member-all_parents :
    (id : String) (commits : List Commit)
    → member id (all_parents commits) ≡ any (λ commit. contains commit.parents id) commits
unfolding all_parents member
member-all_parents id [] = refl
member-all_parents id (commit ∷ commits) = ground (
  arith,
  BTreeSet.member-append id commit.parents (all_parents commits),
  member-contains id commit.parents,
  member-all_parents id commits,
)

member-difference :
    (id : String) (s t : List String)
    → member id (BTreeSet.difference s t) ≡ (member id s && not (member id t))
unfolding BTreeSet.difference
member-difference id s t = BTreeSet.member-filter _ id s

-- An id is a head of a resource exactly if a recorded commit of the resource has it, and no
-- recorded commit of the resource names it as a parent.
pub heads-leaves :
    (state : RuntimeState) (key : ResourceKey) (id : String)
    → member id (heads state key) ≡ (
        any (λ commit. commit.id == id) (resource_commits state key)
        && not (any (λ commit. contains commit.parents id) (resource_commits state key)))
unfolding heads ids_of
heads-leaves state key id =
    let commits = resource_commits state key in
    ground (
      arith,
      member-difference id (BTreeSet.from_list (ids_of commits))
          (BTreeSet.from_list (all_parents commits)),
      BTreeSet.member-from_list id (ids_of commits),
      BTreeSet.member-from_list id (all_parents commits),
      member-ids_of id commits,
      member-all_parents id commits,
    )

pub heads-IsSorted : (state : RuntimeState) (key : ResourceKey) → IsSorted (heads state key)
unfolding heads BTreeSet.difference
heads-IsSorted state key = BTreeSet.filter-IsSorted _ _ (BTreeSet.from_list-IsSorted _)
