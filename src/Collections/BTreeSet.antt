-- ===== src/Collections/BTreeSet.antt =====
-- `std::collections::BTreeSet`: an ascending list.
pub mod Canonical
use mathlib.Core.Logic.{ite}
use rollforward.Prelude.{
  Ord, Bool, true, false, not, ◌&&◌, ◌||◌, ◌≡◌, refl, List, [], ◌∷◌, arith, ◌++◌, if◌then◌else◌,
  filter,
}
use rollforward.Collections.BTreeMap.Laws.{IsBelow, IsSorted, IsBelow-trans}

module _ {K : Type 0} ⦃o : Ord K⦄ where
  unfoldable pub member : K → List K → Bool
  member k [] = false
  member k (j ∷ s) = ite (o.eq.dec j k) true (member k s)

  unfoldable pub insert : K → List K → List K
  insert k [] = k ∷ []
  insert k (j ∷ s) =
      let rest = insert k s in if o.lt k j then k ∷ j ∷ s else ite (o.eq.dec j k) (k ∷ s) (j ∷ rest)

  -- `into_iter().collect()`, and `sort` followed by `dedup`.
  unfoldable pub from_list : List K → List K
  unfolding insert
  from_list [] = []
  from_list (k ∷ l) = insert k (from_list l)

  unfoldable pub difference : List K → List K → List K
  unfolding member
  difference s t = filter (λ k. not (member k t)) s

  pub member-insert :
      (k j : K) (s : List K) → member j (insert k s) ≡ (ite (o.eq.dec k j) true (member j s))
  unfolding member insert
  member-insert k j [] = ground arith
  member-insert k j (i ∷ s) = ground (arith, member-insert k j s)

  insert-IsBelow : (i k : K) (s : List K) → o.lt i k ≡ true → IsBelow i s → IsBelow i (insert k s)
  unfolding insert
  insert-IsBelow i k [] h b = (h, tt)
  insert-IsBelow i k (j ∷ s) h (b, bs) = ground (arith, insert-IsBelow i k s h bs)

  pub insert-IsSorted : (k : K) (s : List K) → IsSorted s → IsSorted (insert k s)
  unfolding insert
  insert-IsSorted k [] h = (tt, tt)
  insert-IsSorted k (j ∷ s) (b, h) =
      ground
        (arith, insert-IsSorted k s h, insert-IsBelow j k s, IsBelow-trans k j s, o.lt_total k j)

  pub from_list-IsSorted : (l : List K) → IsSorted (from_list l)
  unfolding from_list
  from_list-IsSorted [] = tt
  from_list-IsSorted (k ∷ l) = insert-IsSorted k (from_list l) (from_list-IsSorted l)

  pub member-from_list : (k : K) (l : List K) → member k (from_list l) ≡ member k l
  unfolding from_list member
  member-from_list k [] = refl
  member-from_list k (j ∷ l) = ground (arith, member-insert j k (from_list l), member-from_list k l)

  pub member-filter :
      (p : K → Bool) (k : K) (s : List K) → member k (filter p s) ≡ (member k s && p k)
  unfolding member
  member-filter p k [] = refl
  member-filter p k (j ∷ s) = ground (arith, member-filter p k s)

  filter-IsBelow : (p : K → Bool) (i : K) (s : List K) → IsBelow i s → IsBelow i (filter p s)
  filter-IsBelow p i [] b = tt
  filter-IsBelow p i (j ∷ s) (b, bs) = ground (arith, filter-IsBelow p i s bs)

  pub filter-IsSorted : (p : K → Bool) (s : List K) → IsSorted s → IsSorted (filter p s)
  filter-IsSorted p [] h = tt
  filter-IsSorted p (j ∷ s) (b, h) = ground (arith, filter-IsSorted p s h, filter-IsBelow p j s b)

  pub member-IsBelow : (k : K) (s : List K) → IsBelow k s → member k s ≡ false
  unfolding member
  member-IsBelow k [] b = refl
  member-IsBelow k (j ∷ s) (b, bs) = ground (arith, member-IsBelow k s bs, o.lt_irrefl k)

  pub member-append : (k : K) (s t : List K) → member k (s ++ t) ≡ (member k s || member k t)
  unfolding member
  member-append k [] t = refl
  member-append k (j ∷ s) t = ground (arith, member-append k s t)
