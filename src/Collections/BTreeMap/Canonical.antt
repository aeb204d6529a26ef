-- ===== src/Collections/BTreeMap/Canonical.antt =====
-- A map in key order is determined by its lookups, so the order of insertions does not show.
use mathlib.Core.List.{foldl}
use mathlib.Core.Logic.{ite}
use rollforward.Prelude.{Ord, true, ◌≡◌, refl, sym, ◌≢◌, Option, none, some, List, [], ◌∷◌, arith}
use rollforward.Collections.BTreeMap.{BTreeMap, keys, get, insert, from_list}
use rollforward.Collections.BTreeMap.Laws.{
  IsBelow, IsSorted, IsBelow-trans, insert-IsSorted, get-insert,
}

module _ {K V : Type 0} ⦃o : Ord K⦄ where
  pub get-IsBelow : (k : K) (m : BTreeMap K V) → IsBelow k (keys m) → get k m ≡ none
  unfolding get
  get-IsBelow k [] b = refl
  get-IsBelow k ((j, w) ∷ m) (b, bs) = ground (arith, get-IsBelow k m bs, o.lt_irrefl k)

  head-le :
      (k j : K) (v w : V) (m n : BTreeMap K V)
      → IsSorted (keys ((j, w) ∷ n))
      → get k ((k, v) ∷ m) ≡ get k ((j, w) ∷ n)
      → o.lt k j ≢ true
  unfolding get
  head-le k j v w m n (b, s) e h =
      ground (arith, e, o.lt_irrefl k, get-IsBelow k n (IsBelow-trans k j (keys n) h b))

  same_head :
      (k j : K) (v w : V) (m n : BTreeMap K V)
      → IsSorted (keys ((k, v) ∷ m))
      → IsSorted (keys ((j, w) ∷ n))
      → ((i : K) → get i ((k, v) ∷ m) ≡ get i ((j, w) ∷ n))
      → k ≡ j
  same_head k j v w m n s t h = ground (
    arith,
    head-le k j v w m n t (h k),
    head-le j k w v n m s (sym (h j)),
    o.lt_total k j,
    o.eq.dec k j,
  )

  tail_eq :
      (k j : K) (v w : V) (m n : BTreeMap K V)
      → k ≡ j
      → IsBelow k (keys m)
      → IsBelow j (keys n)
      → ((i : K) → get i ((k, v) ∷ m) ≡ get i ((j, w) ∷ n))
      → (i : K) → get i m ≡ get i n
  unfolding get
  tail_eq k j v w m n e b c h i = ground (arith, h i, get-IsBelow k m b, get-IsBelow j n c)

  -- Extensionality.
  pub eq_of_get :
      (m n : BTreeMap K V)
      → IsSorted (keys m)
      → IsSorted (keys n)
      → ((k : K) → get k m ≡ get k n)
      → m ≡ n
  unfolding get
  eq_of_get [] [] s t h = refl
  eq_of_get [] ((j, w) ∷ n) s t h = ground (arith, h j)
  eq_of_get ((k, v) ∷ m) [] s t h = ground (arith, h k)
  eq_of_get ((k, v) ∷ m) ((j, w) ∷ n) s t h =
      let e = same_head k j v w m n s t h in
      let rest = eq_of_get m n s.1 t.1 (tail_eq k j v w m n e s.0 t.0 h) in ground (arith, h k)

  pub insert_comm :
      (k j : K) (v w : V) (m : BTreeMap K V)
      → k ≢ j
      → IsSorted (keys m)
      → insert k v (insert j w m) ≡ insert j w (insert k v m)
  insert_comm k j v w m ne s =
      eq_of_get _ _ (insert-IsSorted k v _ (insert-IsSorted j w m s))
        (insert-IsSorted j w _ (insert-IsSorted k v m s))
        (λ i. ground (
          arith,
          get-insert k i v (insert j w m),
          get-insert j i w m,
          get-insert j i w (insert k v m),
          get-insert k i v m,
        ))

  insert_all : List (K × V) → BTreeMap K V → BTreeMap K V
  insert_all l m = foldl (λ n (k, v). insert k v n) m l

  insert_all-IsSorted :
      (l : List (K × V)) (m : BTreeMap K V) → IsSorted (keys m) → IsSorted (keys (insert_all l m))
  unfolding insert_all
  insert_all-IsSorted [] m s = s
  insert_all-IsSorted ((k, v) ∷ l) m s =
      insert_all-IsSorted l (insert k v m) (insert-IsSorted k v m s)

  pub from_list-IsSorted : (l : List (K × V)) → IsSorted (keys (from_list l))
  unfolding from_list insert_all
  from_list-IsSorted l = insert_all-IsSorted l [] tt

  -- The entries that a list gives to `k`, the last one first in force.
  abbrev pub assigned : K → List (K × V) → Option V
  assigned k [] = none
  assigned k ((j, v) ∷ l) = elim (assigned k l) [
    | none ↦ ite (o.eq.dec j k) (some v) none
    | some w ↦ some w
  ]

  get-insert_all :
      (k : K) (l : List (K × V)) (m : BTreeMap K V)
      → get k (insert_all l m) ≡ elim (assigned k l) [ none ↦ get k m | some w ↦ some w ]
  unfolding insert_all
  get-insert_all k [] m = refl
  get-insert_all k ((j, v) ∷ l) m =
      ground (arith, get-insert_all k l (insert j v m), get-insert j k v m)

  pub get-from_list : (k : K) (l : List (K × V)) → get k (from_list l) ≡ assigned k l
  unfolding from_list insert_all get
  get-from_list k l = ground (arith, get-insert_all k l [])

  -- Two lists that assign alike collect to one map.
  pub from_list_ext :
      (l m : List (K × V)) → ((k : K) → assigned k l ≡ assigned k m) → from_list l ≡ from_list m
  from_list_ext l m h =
      eq_of_get _ _ (from_list-IsSorted l) (from_list-IsSorted m)
        (λ k. ground (arith, h k, get-from_list k l, get-from_list k m))

  assigned-get : (k : K) (m : BTreeMap K V) → IsSorted (keys m) → assigned k m ≡ get k m
  unfolding get
  assigned-get k [] s = refl
  assigned-get k ((j, v) ∷ m) (b, s) = ground (arith, assigned-get k m s, get-IsBelow k m)

  -- Collecting a map's own entries gives the map back.
  pub from_list-entries : (m : BTreeMap K V) → IsSorted (keys m) → from_list m ≡ m
  from_list-entries m s =
      eq_of_get _ _ (from_list-IsSorted m) s
        (λ k. ground (arith, get-from_list k m, assigned-get k m s))
