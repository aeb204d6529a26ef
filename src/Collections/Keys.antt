-- ===== src/Collections/Keys.antt =====
-- The keys of a map as a set.
use mathlib.Core.List.{Permᴰ}
use rollforward.Prelude.{
  Ord, Bool, true, false, ◌≡◌, refl, ◌∙◌, Option, none, some, List, [], ◌∷◌, map, arith,
}
use rollforward.Collections.BTreeMap.{BTreeMap, keys, get, from_list}
use rollforward.Collections.BTreeMap.Canonical.{assigned, get-from_list, from_list_ext}
use rollforward.Collections.BTreeSet.{member}

abbrev pub is_some {ℓ} : {A : Type ℓ} → Option A → Bool
is_some none = false
is_some (some _) = true

module _ {K V : Type 0} ⦃o : Ord K⦄ where
  pub member-keys : (k : K) (m : BTreeMap K V) → member k (keys m) ≡ is_some (get k m)
  unfolding member get
  member-keys k [] = refl
  member-keys k ((j, w) ∷ m) = ground (arith, member-keys k m)

  is_some-assigned :
      (k : K) (l : List (K × V)) → is_some (assigned k l) ≡ member k (map (λ (j, _). j) l)
  unfolding member
  is_some-assigned k [] = refl
  is_some-assigned k ((j, w) ∷ l) = ground (arith, is_some-assigned k l)

  pub member-keys-from_list :
      (k : K) (l : List (K × V)) → member k (keys (from_list l)) ≡ member k (map (λ (j, _). j) l)
  member-keys-from_list k l =
      ground (arith, member-keys k (from_list l), get-from_list k l, is_some-assigned k l)

  -- No two entries have one key.
  abbrev pub NodupKeys : List (K × V) → Type 0
  NodupKeys [] = Unit
  NodupKeys ((k, _) ∷ l) = (assigned k l ≡ none) × NodupKeys l

  assigned-Permᴰ :
      {l m : List (K × V)}
      → Permᴰ l m
      → NodupKeys l
      → NodupKeys m × ((k : K) → assigned k l ≡ assigned k m)
  assigned-Permᴰ Permᴰ.nil d = (tt, λ k. refl)
  assigned-Permᴰ (Permᴰ.cons {a = (j, v)} {b = (i, w)} same p) (a, d) =
      let (d', e) = assigned-Permᴰ p d in ((ground (arith, e j), d'), λ k. ground (arith, e k))
  assigned-Permᴰ (Permᴰ.swap {a = (j, v)} {b = (k, w)} {a' = (k', w')} {b' = (j', v')} same other)
        (a, (b, d)) =
      ((ground arith, (ground arith, d)), λ i. ground arith)
  assigned-Permᴰ (Permᴰ.trans p q) d =
      let (d', e) = assigned-Permᴰ p d in
      let (d'', e') = assigned-Permᴰ q d' in (d'', λ k. e k ∙ e' k)

  -- Collecting a rearrangement of entries with distinct keys gives the same map.
  pub from_list-Permᴰ : {l m : List (K × V)} → Permᴰ l m → NodupKeys l → from_list l ≡ from_list m
  from_list-Permᴰ p d = from_list_ext _ _ (assigned-Permᴰ p d).1
