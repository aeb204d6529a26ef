-- ===== src/Collections/BTreeSet/Canonical.antt =====
-- A set in order is determined by its members.
use rollforward.Prelude.{Ord, true, ◌≡◌, refl, sym, ◌≢◌, List, [], ◌∷◌, arith}
use rollforward.Collections.BTreeMap.Laws.{IsBelow, IsSorted, IsBelow-trans}
use rollforward.Collections.BTreeSet.{
  member, member-IsBelow, from_list, from_list-IsSorted, member-from_list,
}

module _ {K : Type 0} ⦃o : Ord K⦄ where
  member_self : (k : K) (s : List K) → member k (k ∷ s) ≡ true
  unfolding member
  member_self k s = ground arith

  head-le :
      (k j : K) (s t : List K)
      → IsSorted (j ∷ t)
      → member k (k ∷ s) ≡ member k (j ∷ t)
      → o.lt k j ≢ true
  unfolding member
  head-le k j s t (b, h) e lt =
      ground (arith, e, o.lt_irrefl k, member-IsBelow k t (IsBelow-trans k j t lt b))

  same_head :
      (k j : K) (s t : List K)
      → IsSorted (k ∷ s)
      → IsSorted (j ∷ t)
      → ((i : K) → member i (k ∷ s) ≡ member i (j ∷ t))
      → k ≡ j
  same_head k j s t hs ht h = ground (
    arith,
    head-le k j s t ht (h k),
    head-le j k t s hs (sym (h j)),
    o.lt_total k j,
    o.eq.dec k j,
  )

  tail_eq :
      (k j : K) (s t : List K)
      → k ≡ j
      → IsBelow k s
      → IsBelow j t
      → ((i : K) → member i (k ∷ s) ≡ member i (j ∷ t))
      → (i : K) → member i s ≡ member i t
  unfolding member
  tail_eq k j s t e b c h i = ground (arith, h i, member-IsBelow k s b, member-IsBelow j t c)

  -- Extensionality.
  pub eq_of_member :
      (s t : List K) → IsSorted s → IsSorted t → ((k : K) → member k s ≡ member k t) → s ≡ t
  unfolding member
  eq_of_member [] [] hs ht h = refl
  eq_of_member [] (j ∷ t) hs ht h = ground (arith, h j)
  eq_of_member (k ∷ s) [] hs ht h = ground (arith, h k)
  eq_of_member (k ∷ s) (j ∷ t) hs ht h =
      let e = same_head k j s t hs ht h in
      let rest = eq_of_member s t hs.1 ht.1 (tail_eq k j s t e hs.0 ht.0 h) in
      ground (arith, e, rest)

  -- A set in order collects to itself.
  pub from_list-sorted : (s : List K) → IsSorted s → from_list s ≡ s
  from_list-sorted s h = eq_of_member _ _ (from_list-IsSorted s) h (λ k. member-from_list k s)
