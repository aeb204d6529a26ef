-- ===== src/Text/Tests.antt =====
-- The text theorems at concrete contents, and runs of the diff.
use rollforward.Prelude.{ℕ, ◌≡◌, ◌≢◌, refl, ◌+◌, List, [], ◌∷◌, ◌++◌, arith, take, drop, nat_eq}
use rollforward.Errors.{ok}
use rollforward.Text.{
  encode_utf16, common_prefix, common_suffix, slice_bounds, slice_chars, diff_middle, len_bytes,
}
use rollforward.Text.Splice.{splice, splice-diff_middle}
use rollforward.Text.Surrogates.{diff_middle_surrogates}
use rollforward.Text.Document.{Yrs, EditsAscii, set_text, set_text-content}

diff_middle_test :
    diff_middle (97 ∷ 98 ∷ 99 ∷ []) (97 ∷ 120 ∷ 121 ∷ 99 ∷ [])
    ≡ record { start = 1; del_len = 1; inserted = 120 ∷ 121 ∷ [] }
unfolding diff_middle common_prefix common_suffix slice_bounds slice_chars len_bytes nat_eq
diff_middle_test = refl

splice-diff_middle_example :
    splice
      (diff_middle (97 ∷ 128512 ∷ 99 ∷ []) (97 ∷ 233 ∷ 99 ∷ []))
      (encode_utf16 (97 ∷ 128512 ∷ 99 ∷ []))
    ≡ encode_utf16 (97 ∷ 233 ∷ 99 ∷ [])
splice-diff_middle_example =
    splice-diff_middle (97 ∷ 128512 ∷ 99 ∷ []) (97 ∷ 233 ∷ 99 ∷ [])
      (omega arith, (omega arith, (omega arith, tt))) (omega arith)

diff_middle_surrogates_example :
    (diff_middle (128512 ∷ []) (128513 ∷ []) ≡ record { start = 1; del_len = 1; inserted = [] })
    × (splice (diff_middle (128512 ∷ []) (128513 ∷ [])) (encode_utf16 (128512 ∷ []))
        ≢ encode_utf16 (128513 ∷ []))
diff_middle_surrogates_example =
    diff_middle_surrogates 128512 128513 (omega arith) (omega arith) refl (omega arith)

-- A document that is its content.
abbrev content_only : Yrs
content_only = record {
  Doc = List ℕ;
  StateVector = Unit;
  new_doc = [];
  get_string = λ doc. doc;
  state_vector = λ doc. tt;
  empty_vector = tt;
  remove_range = λ doc start count. take start doc ++ drop (start + count) doc;
  insert = λ doc start text. take start doc ++ (text ++ drop start doc);
  encode_state_as_update = λ doc vector. doc;
  apply_update = λ doc update. ok update;
}

content_only-EditsAscii : EditsAscii content_only
content_only-EditsAscii = record {
  remove_range_lem = λ doc start count ascii fits. refl;
  insert_lem = λ doc start text ascii ascii_text fits. refl;
}

set_text-content_example :
    (set_text content_only (97 ∷ 98 ∷ 99 ∷ []) (97 ∷ 120 ∷ 99 ∷ [])).1 ≡ 97 ∷ 120 ∷ 99 ∷ []
set_text-content_example =
    set_text-content content_only content_only-EditsAscii (97 ∷ 98 ∷ 99 ∷ []) (97 ∷ 120 ∷ 99 ∷ [])
      (omega arith, (omega arith, (omega arith, tt)))
      (omega arith, (omega arith, (omega arith, tt))) (omega arith)
