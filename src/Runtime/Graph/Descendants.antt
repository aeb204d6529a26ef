-- ===== src/Runtime/Graph/Descendants.antt =====
-- `is_descendant` (src/runtime.rs), and the ids that `text_doc_at` collects.
use mathlib.Core.List.{reverse}
use rollforward.Prelude.{
  ℕ, zero, suc, String, true, false, ◌≡◌, ◌↔◌, inl, inr, sym, ap, some, List, [], ◌∷◌, ◌++◌, arith,
  list_eq, nat_eq, list_ord, nat_ord, Option-cases,
}
use rollforward.Collections.BTreeSet
use rollforward.Collections.BTreeSet.{member}
use rollforward.Types.{ResourceKey}
use rollforward.Runtime.State.{
  RuntimeState, parents_of, parents_within, descends, reach, rounds, is_descendant, reachable,
}
use rollforward.Runtime.Graph.Fuel.{reach-parents_of-some}
use rollforward.Runtime.Graph.Reaches.{
  Descends, reach-Descends, reach-skip, reach-enter, reach_nil, reach_zero, reach-includes,
  member-cons, member_nil,
}

module _ (edges : String → List String) (ancestor : String) where
  -- Stopping at the ancestor makes no difference to the answer.
  descends-reach :
      (fuel : ℕ) (pending visited result : List String)
      → reach edges fuel pending visited ≡ some result
      → member ancestor visited ≡ false
      → descends edges ancestor fuel pending visited ≡ some (member ancestor result)
  unfolding descends
  descends-reach zero pending visited result e h =
      absurd (reach_zero edges pending visited result e)
  descends-reach (suc fuel) [] visited result e h =
      ap some (sym (rw (sym (reach_nil edges fuel visited result e)) h))
  descends-reach (suc fuel) (id ∷ pending) visited result e h = ground (
    arith,
    reach-skip edges fuel id pending visited,
    reach-enter edges fuel id pending visited,
    descends-reach fuel pending visited result,
    descends-reach fuel (reverse (edges id) ++ pending) (BTreeSet.insert id visited) result,
    reach-includes edges (suc fuel) (id ∷ pending) visited result ancestor e,
    BTreeSet.member-insert id ancestor visited,
    member-cons ancestor id pending,
  )

-- The answer of `is_descendant` is exact: yes if and only if the one commit comes from the other
-- through recorded parents, in any number of steps (or is the same).
pub is_descendant-Descends :
    (state : RuntimeState) (candidate ancestor : String)
    → (is_descendant state candidate ancestor ≡ some true)
      ↔ Descends (parents_of state) candidate ancestor
unfolding is_descendant
is_descendant-Descends state candidate ancestor =
    elim (Option-cases (reach (parents_of state) (rounds state) (candidate ∷ []) [])) [
      | inl e ↦ absurd (reach-parents_of-some state candidate e)
      | inr (result, e) ↦
          let answer =
            descends-reach (parents_of state) ancestor (rounds state) (candidate ∷ []) [] result e
              (member_nil ancestor) in
          let (to, from) =
            reach-Descends (parents_of state) (rounds state) candidate result e ancestor in
          (λ h. to (ground (arith, answer)), λ d. ground (arith, answer, from d))
    ]

-- The commits whose deltas make up a head's text are the ones that the head descends from through
-- commits of its resource.
pub reachable-Descends :
    (state : RuntimeState) (key : ResourceKey) (head : String) (ids : List String)
    → reachable state key head ≡ some ids
    → (id : String) → (member id ids ≡ true) ↔ Descends (parents_within state key) head id
unfolding reachable
reachable-Descends state key head ids e id =
    reach-Descends (parents_within state key) (rounds state) head ids e id
