-- ===== src/Collections/BTreeMap.antt =====
-- `std::collections::BTreeMap`: a list of entries in ascending order of their keys, so that
-- `keys`, `values` and `into_iter` read it from the front.
pub mod Laws
pub mod Canonical
use mathlib.Core.Logic.{ite}
use mathlib.Core.List.{foldl}
use rollforward.Prelude.{
  Ord, Eq, ◌==◌, Bool, true, false, Option, none, some, List, [], ◌∷◌, map, if◌then◌else◌,
}

abbrev pub BTreeMap : Type 0 → Type 0 → Type 0
BTreeMap K V = List (K × V)

module _ {K V : Type 0} where
  abbrev pub keys : BTreeMap K V → List K
  keys [] = []
  keys ((k, _) ∷ m) = k ∷ keys m

  abbrev pub values : BTreeMap K V → List V
  values [] = []
  values ((_, v) ∷ m) = v ∷ values m

module _ {K V : Type 0} ⦃o : Ord K⦄ where
  unfoldable pub get : K → BTreeMap K V → Option V
  get k [] = none
  get k ((j, v) ∷ m) = ite (o.eq.dec j k) (some v) (get k m)

  unfoldable pub contains_key : K → BTreeMap K V → Bool
  contains_key k [] = false
  contains_key k ((j, v) ∷ m) = ite (o.eq.dec j k) true (contains_key k m)

  unfoldable pub insert : K → V → BTreeMap K V → BTreeMap K V
  insert k v [] = (k, v) ∷ []
  insert k v ((j, w) ∷ m) =
      let rest = insert k v m in
      if o.lt k j then (k, v) ∷ (j, w) ∷ m else ite (o.eq.dec j k) ((k, v) ∷ m) ((j, w) ∷ rest)

  unfoldable pub remove : K → BTreeMap K V → BTreeMap K V
  remove k [] = []
  remove k ((j, w) ∷ m) = let rest = remove k m in ite (o.eq.dec j k) rest ((j, w) ∷ rest)

  -- `retain` with a test on the value.
  unfoldable pub retain : (V → Bool) → BTreeMap K V → BTreeMap K V
  retain p [] = []
  retain p ((j, w) ∷ m) = let rest = retain p m in if p w then (j, w) ∷ rest else rest

  -- `into_iter().collect()`: a later entry of a key replaces an earlier one.
  unfoldable pub from_list : List (K × V) → BTreeMap K V
  unfolding insert
  from_list = foldl (λ m (k, v). insert k v m) []
