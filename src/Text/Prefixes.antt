-- ===== src/Text/Prefixes.antt =====
-- The common prefix and suffix that the two loops find.
use mathlib.Core.List.{reverse, reverse-append, reverse-reverse}
use rollforward.Prelude.{
  ℕ, ◌+◌, ◌-◌, ◌≤◌, ◌≡◌, refl, sym, ◌∙◌, ap, List, [], ◌∷◌, ◌++◌, arith, nat_eq, length,
  length-reverse, take, drop, take-append-drop, drop-length_append, length-drop, drop-drop,
}
use rollforward.Text.{common_prefix, common_suffix}

pub common_prefix-le :
    (old new : List ℕ) → (common_prefix old new ≤ length old) × (common_prefix old new ≤ length new)
unfolding common_prefix
common_prefix-le [] new = omega arith
common_prefix-le (a ∷ old) [] = omega arith
common_prefix-le (a ∷ old) (b ∷ new) = ground (arith, common_prefix-le old new)

pub take-common_prefix :
    (old new : List ℕ) → take (common_prefix old new) old ≡ take (common_prefix old new) new
unfolding common_prefix
take-common_prefix [] new = refl
take-common_prefix (a ∷ old) [] = refl
take-common_prefix (a ∷ old) (b ∷ new) = ground (arith, take-common_prefix old new)

-- What is left after dropping all but the last `s`.
drop-reverse :
    (s : ℕ) (zs : List ℕ) → s ≤ length zs → drop (length zs - s) (reverse zs) ≡ reverse (take s zs)
drop-reverse s zs h =
    let split : reverse zs ≡ reverse (drop s zs) ++ reverse (take s zs) =
      ap reverse (sym (take-append-drop s zs)) ∙ reverse-append (take s zs) (drop s zs) in
    let front : length zs - s ≡ length (reverse (drop s zs)) =
      omega (arith, length-reverse (drop s zs), length-drop s zs) in
    rw (split, front, drop-length_append (reverse (drop s zs)) (reverse (take s zs)))

drop-end :
    (s : ℕ) (xs : List ℕ) → s ≤ length xs → drop (length xs - s) xs ≡ reverse (take s (reverse xs))
drop-end s xs h =
    let back : drop (length (reverse xs) - s) (reverse (reverse xs))
        ≡ reverse (take s (reverse xs)) =
      drop-reverse s (reverse xs) (omega (arith, length-reverse xs)) in
    rw (length-reverse xs, reverse-reverse xs) at back

drop_ends :
    (xs ys : List ℕ)
    → drop (length xs - common_prefix (reverse xs) (reverse ys)) xs
      ≡ drop (length ys - common_prefix (reverse xs) (reverse ys)) ys
drop_ends xs ys =
    let s = common_prefix (reverse xs) (reverse ys) in
    let (a, b) = common_prefix-le (reverse xs) (reverse ys) in
    drop-end s xs (omega (arith, length-reverse xs))
    ∙ ap reverse (take-common_prefix (reverse xs) (reverse ys))
    ∙ sym (drop-end s ys (omega (arith, length-reverse ys)))

module _ (old new : List ℕ) (p s : ℕ) (pe : p ≡ common_prefix old new)
    (se : s ≡ common_suffix p old new) where
  -- Prefix and suffix do not overlap in either text.
  pub prefix_suffix_le : (p + s ≤ length old) × (p + s ≤ length new)
  unfolding common_suffix
  prefix_suffix_le =
      let (a, b) = common_prefix-le old new in
      let (c, d) = common_prefix-le (reverse (drop p old)) (reverse (drop p new)) in
      (
        omega (arith, length-reverse (drop p old), length-drop p old),
        omega (arith, length-reverse (drop p new), length-drop p new),
      )

  pub take_prefix : take p old ≡ take p new
  take_prefix = rw pe (take-common_prefix old new)

  drop_tail :
      (text : List ℕ)
      → p + s ≤ length text
      → drop (length text - s) text ≡ drop (length (drop p text) - s) (drop p text)
  drop_tail text h =
      let e : length text - s ≡ p + (length (drop p text) - s) =
        omega (arith, length-drop p text) in
      rw e (sym (drop-drop p (length (drop p text) - s) text))

  -- What follows the changed middle is the same in both texts.
  pub drop_suffix : drop (length old - s) old ≡ drop (length new - s) new
  unfolding common_suffix
  drop_suffix =
      drop_tail old prefix_suffix_le.0
      ∙ rw se (drop_ends (drop p old) (drop p new))
      ∙ sym (drop_tail new prefix_suffix_le.1)
