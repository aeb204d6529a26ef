-- ===== src/Text/Surrogates.antt =====
-- `diff_middle` (src/text.rs) on two characters above the basic plane that share their first code
-- unit.
use rollforward.Prelude.{ℕ, ◌+◌, ◌-◌, ◌/◌, ◌%◌, ◌≤◌, ◌≡◌, ◌≢◌, sym, [], ◌∷◌, arith, nat_eq, false}
use rollforward.Text.{
  encode_utf16, common_prefix, common_suffix, slice_bounds, slice_chars, diff_middle, len_bytes,
}
use rollforward.Text.Splice.{splice}

common_prefix-one : (hi a b : ℕ) → a ≢ b → common_prefix (hi ∷ a ∷ []) (hi ∷ b ∷ []) ≡ 1
unfolding common_prefix
common_prefix-one hi a b n = ground arith

common_suffix-none : (hi a b : ℕ) → a ≢ b → common_suffix 1 (hi ∷ a ∷ []) (hi ∷ b ∷ []) ≡ 0
unfolding common_suffix
common_suffix-none hi a b n = ground arith

encode_utf16-pair :
    (c : ℕ)
    → 0x10000 ≤ c
    → encode_utf16 (c ∷ [])
      ≡ (0xd800 + (c - 0x10000) / 0x400) ∷ (0xdc00 + (c - 0x10000) % 0x400) ∷ []
encode_utf16-pair c h = ground arith

no_slice :
    (c : ℕ)
    → 0x10000 ≤ c
    → let bounds = slice_bounds 1 2 (c ∷ []) 0 0 false (len_bytes (c ∷ [])) (len_bytes (c ∷ [])) in
      slice_chars bounds.0 bounds.1 0 (c ∷ []) ≡ []
unfolding slice_bounds slice_chars len_bytes
no_slice c h = ground arith

edit_surrogates :
    (c d : ℕ)
    → 0x10000 ≤ c
    → 0x10000 ≤ d
    → (c - 0x10000) / 0x400 ≡ (d - 0x10000) / 0x400
    → c ≢ d
    → diff_middle (c ∷ []) (d ∷ []) ≡ record { start = 1; del_len = 1; inserted = [] }
unfolding diff_middle
edit_surrogates c d hc hd same n =
    let hi = 0xd800 + (d - 0x10000) / 0x400 in
    let lo = 0xdc00 + (c - 0x10000) % 0x400 in
    let lo' = 0xdc00 + (d - 0x10000) % 0x400 in
    let differ : lo ≢ lo' = λ e. n (omega arith) in
    rw (
      encode_utf16-pair c hc,
      encode_utf16-pair d hd,
      same,
      common_prefix-one hi lo lo' differ,
      common_suffix-none hi lo lo' differ,
      no_slice d hd,
    )

two_units : (d : ℕ) → 0x10000 ≤ d → (hi : ℕ) → encode_utf16 (d ∷ []) ≢ hi ∷ []
two_units d h hi = ground arith

-- Where one character above the basic plane replaces another with the same first code unit, the
-- edit deletes the second code unit and inserts nothing, so the new text is lost.
pub diff_middle_surrogates :
    (c d : ℕ)
    → 0x10000 ≤ c
    → 0x10000 ≤ d
    → (c - 0x10000) / 0x400 ≡ (d - 0x10000) / 0x400
    → c ≢ d
    → (diff_middle (c ∷ []) (d ∷ []) ≡ record { start = 1; del_len = 1; inserted = [] })
      × (splice (diff_middle (c ∷ []) (d ∷ [])) (encode_utf16 (c ∷ [])) ≢ encode_utf16 (d ∷ []))
diff_middle_surrogates c d hc hd same n =
    let edit = edit_surrogates c d hc hd same n in
    (edit, λ e. absurd (two_units d hd _ (sym (rw (edit, encode_utf16-pair c hc) at e))))
