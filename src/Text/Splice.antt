-- ===== src/Text/Splice.antt =====
-- The edit of `diff_middle` (src/text.rs) as `TextDoc::set_text` carries it out, code unit by code
-- unit.
use native.Mathlib.Nat.{zero-add}
use rollforward.Prelude.{
  ℕ, zero, suc, ◌+◌, ◌-◌, ◌≤◌, ◌<◌, min, true, false, ◌≡◌, refl, sym, ◌∙◌, List, [], ◌∷◌, ◌++◌,
  arith, length, take, drop, take-append-drop, drop-drop,
}
use rollforward.Text.{
  Edit, len_utf8, encode_utf16, len_bytes, common_prefix, common_suffix, slice_bounds, slice_chars,
  diff_middle, u32_max,
}
use rollforward.Text.Prefixes.{prefix_suffix_le, take_prefix, drop_suffix}

-- Every character is in the basic plane, so that it is one code unit.
abbrev pub Basic : List ℕ → Type 0
Basic [] = Unit
Basic (c ∷ text) = (c < 0x10000) × Basic text

-- Removing `del_len` code units at `start` and inserting there.
abbrev pub splice : Edit → List ℕ → List ℕ
splice e units = take e.start units ++ (encode_utf16 e.inserted ++ drop (e.start + e.del_len) units)

pub encode_utf16-Basic : (text : List ℕ) → Basic text → encode_utf16 text ≡ text
encode_utf16-Basic [] h = refl
encode_utf16-Basic (c ∷ text) (h, hs) = ground (arith, encode_utf16-Basic text hs)

-- The part of a text between two positions.
abbrev middle : ℕ → ℕ → List ℕ → List ℕ
middle from until text = take (until - from) (drop from text)

-- The offset of the character at a position.
offset_at : ℕ → List ℕ → ℕ
offset_at zero text = 0
offset_at (suc n) [] = 0
offset_at (suc n) (c ∷ text) = len_utf8 c + offset_at n text

len_utf8_pos : (c : ℕ) → 0 < len_utf8 c
len_utf8_pos c = ground arith

offset_at-length : (text : List ℕ) → offset_at (length text) text ≡ len_bytes text
unfolding offset_at len_bytes
offset_at-length [] = refl
offset_at-length (c ∷ text) = omega (arith, offset_at-length text)

module _ (p e : ℕ) where
  bounds_set :
      (rest : List ℕ) (b i k start : ℕ)
      → e ≡ k + b
      → b ≤ length rest
      → Basic rest
      → slice_bounds p e rest i k true start (i + len_bytes rest) ≡ (start, i + offset_at b rest)
  unfolding slice_bounds offset_at len_bytes
  bounds_set [] zero i k start h le basic = refl
  bounds_set [] (suc b) i k start h le basic = absurd (omega arith)
  bounds_set (c ∷ rest) zero i k start h le (small, basic) = ground arith
  bounds_set (c ∷ rest) (suc b) i k start h le (small, basic) =
      ground
        (arith, bounds_set rest b (i + len_utf8 c) (k + 1) start (omega arith) (omega arith) basic)

  bounds_unset :
      (rest : List ℕ) (a b i k : ℕ)
      → p ≡ k + a
      → e ≡ k + b
      → a ≤ b
      → b ≤ length rest
      → Basic rest
      → slice_bounds p e rest i k false (i + len_bytes rest) (i + len_bytes rest)
        ≡ (i + offset_at a rest, i + offset_at b rest)
  unfolding slice_bounds offset_at len_bytes
  bounds_unset [] zero zero i k hp he ab le basic = refl
  bounds_unset [] a (suc b) i k hp he ab le basic = absurd (omega arith)
  bounds_unset [] (suc a) zero i k hp he ab le basic = absurd (omega arith)
  bounds_unset (c ∷ rest) zero zero i k hp he ab le (small, basic) = ground arith
  bounds_unset (c ∷ rest) zero (suc b) i k hp he ab le (small, basic) =
      ground (arith, bounds_set rest b (i + len_utf8 c) (k + 1) i (omega arith) (omega arith) basic)
  bounds_unset (c ∷ rest) (suc a) zero i k hp he ab le basic = absurd (omega arith)
  bounds_unset (c ∷ rest) (suc a) (suc b) i k hp he ab le (small, basic) = ground (
    arith,
    bounds_unset rest a b (i + len_utf8 c) (k + 1) (omega arith) (omega arith) (omega arith)
        (omega arith) basic,
  )

slice_past : (from until i : ℕ) (rest : List ℕ) → until ≤ i → slice_chars from until i rest ≡ []
unfolding slice_chars
slice_past from until i [] h = refl
slice_past from until i (c ∷ rest) h = ground (arith, slice_past from until (i + len_utf8 c) rest)

slice_from :
    (rest : List ℕ) (b from i : ℕ)
    → from ≤ i
    → b ≤ length rest
    → slice_chars from (i + offset_at b rest) i rest ≡ take b rest
unfolding slice_chars offset_at
slice_from rest zero from i h le = slice_past from (i + 0) i rest (omega arith)
slice_from [] (suc b) from i h le = absurd (omega arith)
slice_from (c ∷ rest) (suc b) from i h le =
    let ih = slice_from rest b from (i + len_utf8 c) (omega arith) (omega arith) in
    ground (arith, len_utf8_pos c)

slice_skip :
    (from until i c : ℕ) (rest : List ℕ)
    → i < from
    → slice_chars from until i (c ∷ rest) ≡ slice_chars from until (i + len_utf8 c) rest
unfolding slice_chars
slice_skip from until i c rest h = ground arith

slice_between :
    (rest : List ℕ) (a b i : ℕ)
    → a ≤ b
    → b ≤ length rest
    → slice_chars (i + offset_at a rest) (i + offset_at b rest) i rest ≡ middle a b rest
unfolding offset_at
slice_between rest zero b i ab le =
    let whole : b - 0 ≡ b = omega arith in rw whole (slice_from rest b (i + 0) i (omega arith) le)
slice_between [] (suc a) b i ab le = absurd (omega arith)
slice_between (c ∷ rest) (suc a) zero i ab le = absurd (omega arith)
slice_between (c ∷ rest) (suc a) (suc b) i ab le =
    let from : i + (len_utf8 c + offset_at a rest) ≡ i + len_utf8 c + offset_at a rest =
      omega arith in
    let until : i + (len_utf8 c + offset_at b rest) ≡ i + len_utf8 c + offset_at b rest =
      omega arith in
    let count : suc b - suc a ≡ b - a = omega arith in
    rw (from, until, count)
      (slice_skip _ _ i c rest (omega (arith, len_utf8_pos c))
        ∙ slice_between rest a b (i + len_utf8 c) (omega arith) (omega arith))

-- The slice that the loop over `char_indices` cuts out is the part between the two positions.
slice_bounds-middle :
    (text : List ℕ) (a b : ℕ)
    → a ≤ b
    → b ≤ length text
    → Basic text
    → let bounds = slice_bounds a b text 0 0 false (len_bytes text) (len_bytes text) in
      slice_chars bounds.0 bounds.1 0 text ≡ middle a b text
slice_bounds-middle text a b ab le basic =
    let found : slice_bounds a b text 0 0 false (0 + len_bytes text) (0 + len_bytes text)
        ≡ (0 + offset_at a text, 0 + offset_at b text) =
      bounds_unset a b text a b 0 0 (omega arith) (omega arith) ab le basic in
    rw (sym (zero-add (len_bytes text)), found) (slice_between text a b 0 ab le)

take-middle-drop :
    (text : List ℕ) (a b : ℕ) → a ≤ b → take a text ++ (middle a b text ++ drop b text) ≡ text
take-middle-drop text a b ab =
    let e : b ≡ a + (b - a) = omega arith in
    let rest : drop b text ≡ drop (b - a) (drop a text) = rw (drop-drop a (b - a) text, ← e) in
    rw (rest, take-append-drop (b - a) (drop a text)) (take-append-drop a text)

take-Basic : (n : ℕ) (text : List ℕ) → Basic text → Basic (take n text)
take-Basic zero text h = tt
take-Basic (suc n) [] h = tt
take-Basic (suc n) (c ∷ text) (h, hs) = (h, take-Basic n text hs)

drop-Basic : (n : ℕ) (text : List ℕ) → Basic text → Basic (drop n text)
drop-Basic zero text h = h
drop-Basic (suc n) [] h = tt
drop-Basic (suc n) (c ∷ text) (h, hs) = drop-Basic n text hs

middle-Basic : (text : List ℕ) (a b : ℕ) → Basic text → Basic (middle a b text)
middle-Basic text a b h = take-Basic (b - a) (drop a text) (drop-Basic a text h)

-- The edit that `diff_middle` finds turns the old text into the new one, code unit by code unit,
-- if every character of the new text is in the basic plane and the old text is shorter than 4 Gi
-- code units.
pub splice-diff_middle :
    (old new : List ℕ)
    → Basic new
    → length (encode_utf16 old) ≤ u32_max
    → splice (diff_middle old new) (encode_utf16 old) ≡ encode_utf16 new
unfolding diff_middle
splice-diff_middle old new basic small =
    let u = encode_utf16 old in
    let p = common_prefix u new in
    let s = common_suffix p u new in
    let (fits_old, fits_new) = prefix_suffix_le u new p s refl refl in
    let until = length new - s in
    let at_prefix : min p u32_max ≡ p = omega arith in
    let count : min (length u - p - s) u32_max ≡ length u - p - s = omega arith in
    let after : p + (length u - p - s) ≡ length u - s = omega arith in
    let cut = slice_bounds-middle new p until (omega arith) (omega arith) basic in
    let units = encode_utf16-Basic (middle p until new) (middle-Basic new p until basic) in
    rw
      (
        encode_utf16-Basic new basic,
        at_prefix,
        count,
        cut,
        units,
        after,
        take_prefix u new p s refl refl,
        drop_suffix u new p s refl refl,
      )
      (take-middle-drop new p until (omega arith))
