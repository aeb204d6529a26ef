-- ===== src/Collections/BTreeMap/Laws.antt =====
-- Lookup after each operation, and the order of the entries.
use mathlib.Core.Logic.{ite}
use rollforward.Prelude.{Ord, Bool, true, ◌≡◌, refl, ◌≢◌, ◌↔◌, none, some, List, [], ◌∷◌, arith}
use rollforward.Collections.BTreeMap.{BTreeMap, keys, get, contains_key, insert, remove, retain}

module _ {K : Type 0} ⦃o : Ord K⦄ where
  -- `k` lies below every key.
  abbrev pub IsBelow : K → List K → Type 0
  IsBelow k [] = Unit
  IsBelow k (j ∷ js) = (o.lt k j ≡ true) × IsBelow k js

  abbrev pub IsSorted : List K → Type 0
  IsSorted [] = Unit
  IsSorted (k ∷ ks) = IsBelow k ks × IsSorted ks

  pub IsBelow-trans : (i k : K) (js : List K) → o.lt i k ≡ true → IsBelow k js → IsBelow i js
  IsBelow-trans i k [] h b = tt
  IsBelow-trans i k (j ∷ js) h (b, bs) = (o.lt_trans i k j h b, IsBelow-trans i k js h bs)

module _ {K V : Type 0} ⦃o : Ord K⦄ where
  pub get-insert_self : (k : K) (v : V) (m : BTreeMap K V) → get k (insert k v m) ≡ some v
  unfolding get insert
  get-insert_self k v [] = ground arith
  get-insert_self k v ((j, w) ∷ m) = ground (arith, get-insert_self k v m)

  pub get-insert_ne : (k j : K) (v : V) (m : BTreeMap K V) → k ≢ j → get j (insert k v m) ≡ get j m
  unfolding get insert
  get-insert_ne k j v [] n = ground arith
  get-insert_ne k j v ((i, w) ∷ m) n = ground (arith, get-insert_ne k j v m n)

  pub get-insert :
      (k j : K) (v : V) (m : BTreeMap K V)
      → get j (insert k v m) ≡ ite (o.eq.dec k j) (some v) (get j m)
  get-insert k j v m = ground (arith, get-insert_self k v m, get-insert_ne k j v m)

  pub get-remove_self : (k : K) (m : BTreeMap K V) → get k (remove k m) ≡ none
  unfolding get remove
  get-remove_self k [] = refl
  get-remove_self k ((j, w) ∷ m) = ground (arith, get-remove_self k m)

  pub get-remove_ne : (k j : K) (m : BTreeMap K V) → k ≢ j → get j (remove k m) ≡ get j m
  unfolding get remove
  get-remove_ne k j [] n = refl
  get-remove_ne k j ((i, w) ∷ m) n = ground (arith, get-remove_ne k j m n)

  insert-IsBelow :
      (i k : K) (v : V) (m : BTreeMap K V)
      → o.lt i k ≡ true
      → IsBelow i (keys m)
      → IsBelow i (keys (insert k v m))
  unfolding insert
  insert-IsBelow i k v [] h b = (h, tt)
  insert-IsBelow i k v ((j, w) ∷ m) h (b, bs) = ground (arith, insert-IsBelow i k v m h bs)

  pub insert-IsSorted :
      (k : K) (v : V) (m : BTreeMap K V) → IsSorted (keys m) → IsSorted (keys (insert k v m))
  unfolding insert
  insert-IsSorted k v [] s = (tt, tt)
  insert-IsSorted k v ((j, w) ∷ m) (b, s) = ground (
    arith,
    insert-IsSorted k v m s,
    insert-IsBelow j k v m,
    IsBelow-trans k j (keys m),
    o.lt_total k j,
  )

  remove-IsBelow : (i k : K) (m : BTreeMap K V) → IsBelow i (keys m) → IsBelow i (keys (remove k m))
  unfolding remove
  remove-IsBelow i k [] b = tt
  remove-IsBelow i k ((j, w) ∷ m) (b, bs) = ground (arith, remove-IsBelow i k m bs)

  pub remove-IsSorted :
      (k : K) (m : BTreeMap K V) → IsSorted (keys m) → IsSorted (keys (remove k m))
  unfolding remove
  remove-IsSorted k [] s = tt
  remove-IsSorted k ((j, w) ∷ m) (b, s) =
      ground (arith, remove-IsSorted k m s, remove-IsBelow j k m b)

  retain-IsBelow :
      (i : K) (p : V → Bool) (m : BTreeMap K V) → IsBelow i (keys m) → IsBelow i (keys (retain p m))
  unfolding retain
  retain-IsBelow i p [] b = tt
  retain-IsBelow i p ((j, w) ∷ m) (b, bs) = ground (arith, retain-IsBelow i p m bs)

  pub retain-IsSorted :
      (p : V → Bool) (m : BTreeMap K V) → IsSorted (keys m) → IsSorted (keys (retain p m))
  unfolding retain
  retain-IsSorted p [] s = tt
  retain-IsSorted p ((j, w) ∷ m) (b, s) =
      ground (arith, retain-IsSorted p m s, retain-IsBelow j p m b)

  pub contains_key-get : (k : K) (m : BTreeMap K V) → (contains_key k m ≡ true) ↔ (get k m ≢ none)
  unfolding contains_key get
  contains_key-get k [] = ground arith
  contains_key-get k ((j, w) ∷ m) = ground (arith, contains_key-get k m)
