-- ===== src/Collections/Sort.antt =====
-- `slice::sort` and `sort_by`, which are stable: insertion sort puts an element before the first
-- one that it is not above.
use rollforward.Prelude.{Ord, Bool, List, [], ◌∷◌, if◌then◌else◌}

module _ {ℓ} {A : Type ℓ} where
  -- `below a b` is `a < b` in the order sorted by.
  unfoldable pub insert_by : (A → A → Bool) → A → List A → List A
  insert_by below x [] = x ∷ []
  insert_by below x (y ∷ l) =
      let rest = insert_by below x l in if below y x then y ∷ rest else x ∷ y ∷ l

  unfoldable pub sort_by : (A → A → Bool) → List A → List A
  unfolding insert_by
  sort_by below [] = []
  sort_by below (x ∷ l) = insert_by below x (sort_by below l)

unfoldable pub sort {ℓ} : {A : Type ℓ} ⦃o : Ord A⦄ → List A → List A
unfolding sort_by
sort ⦃o⦄ = sort_by o.lt
