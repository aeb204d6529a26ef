-- ===== src/Text.antt =====
-- Text documents over yrs, and the UTF-16 diff of two contents (src/text.rs).
-- A text is the list of its characters, as Unicode scalar values.
mod Utf16
pub mod Utf8
pub mod Prefixes
pub mod Splice
pub mod Document
pub mod Surrogates
mod Tests
pub use Utf16.{len_utf16, encode_utf16}
use mathlib.Core.List.{reverse, foldl}
use rollforward.Prelude.{
  ℕ, zero, suc, ◌+◌, ◌-◌, min, ◌^◌, String, Bytes, Bool, true, false, not, ◌&&◌, Option, none, some,
  List, [], ◌∷◌, ltb, leb, ◌==◌, nat_eq, if◌then◌else◌, length, drop,
}
use rollforward.Errors.{Result, ok, err, SyncError, ◌>>=◌}

abbrev pub len_utf8 : ℕ → ℕ
len_utf8 c = if ltb c 0x80 then 1 else if ltb c 0x800 then 2 else if ltb c 0x10000 then 3 else 4

abbrev pub u32_max : ℕ
u32_max = 2 ^ 32 - 1

-- `new.len()`.
len_bytes : List ℕ → ℕ
len_bytes [] = 0
len_bytes (c ∷ text) = len_utf8 c + len_bytes text

-- The first `while` of `diff_middle`: how many code units agree from the front.
unfoldable pub common_prefix : List ℕ → List ℕ → ℕ
common_prefix [] new = 0
common_prefix (a ∷ old) [] = 0
common_prefix (a ∷ old) (b ∷ new) = if a == b then suc (common_prefix old new) else 0

-- The second `while`, which indexes both from the back and stops at the prefix.
unfoldable pub common_suffix : ℕ → List ℕ → List ℕ → ℕ
unfolding common_prefix
common_suffix prefix old new = common_prefix (reverse (drop prefix old)) (reverse (drop prefix new))

-- The loop over `char_indices`, from its variables: the two byte offsets of the inserted slice.
slice_bounds : ℕ → ℕ → List ℕ → ℕ → ℕ → Bool → ℕ → ℕ → ℕ × ℕ
slice_bounds prefix insert_end [] byte_idx cu start_set byte_start byte_end = (byte_start, byte_end)
slice_bounds prefix insert_end (ch ∷ rest) byte_idx cu start_set byte_start byte_end =
    let sets = not start_set && leb prefix cu in
    let start' = if sets then byte_idx else byte_start in
    let set' = if sets then true else start_set in
    let next =
      slice_bounds prefix insert_end rest (byte_idx + len_utf8 ch) (cu + len_utf16 ch) set' start'
        byte_end in
    if leb insert_end cu then (start', byte_idx) else next

-- `&new[byte_start..byte_end]`, at character boundaries.
slice_chars : ℕ → ℕ → ℕ → List ℕ → List ℕ
slice_chars byte_start byte_end byte_idx [] = []
slice_chars byte_start byte_end byte_idx (ch ∷ rest) =
    let more = slice_chars byte_start byte_end (byte_idx + len_utf8 ch) rest in
    if leb byte_start byte_idx && ltb byte_idx byte_end then ch ∷ more else more

-- What `diff_middle` returns: where to cut, how many code units, and what to put there.
pub record Edit : Type 0 where
  pub start : ℕ
  pub del_len : ℕ
  pub inserted : List ℕ

unfoldable pub diff_middle : List ℕ → List ℕ → Edit
unfolding common_suffix slice_bounds slice_chars len_bytes
diff_middle old new =
    let old_u16 = encode_utf16 old in
    let new_u16 = encode_utf16 new in
    let prefix = common_prefix old_u16 new_u16 in
    let suffix = common_suffix prefix old_u16 new_u16 in
    let del_len = length old_u16 - prefix - suffix in
    let insert_end_cu = length new_u16 - suffix in
    let len = len_bytes new in
    let bounds = slice_bounds prefix insert_end_cu new 0 0 false len len in
    record {
      start = min prefix u32_max;
      del_len = min del_len u32_max;
      inserted = slice_chars bounds.0 bounds.1 0 new;
    }
