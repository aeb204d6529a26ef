-- ===== src/Text/Document.antt =====
-- `TextDoc`, over yrs as a record of operations.
use rollforward.Prelude.{
  ℕ, zero, suc, ◌+◌, ◌<◌, ◌≤◌, String, Bytes, Bool, ◌≡◌, refl, ◌∙◌, ap, Option, none, some, List,
  [], ◌∷◌, ◌++◌, arith, ltb, if◌then◌else◌, ◌&&◌, leb, length-append, length, take, drop,
  take-append-drop,
}
use rollforward.Errors.{Result, ok, err, SyncError, serde_error, ◌>>=◌}
use rollforward.Text.Prefixes.{common_prefix-le}
use rollforward.Text.{
  common_prefix, slice_chars, len_utf8, Edit, encode_utf16, diff_middle, u32_max,
}
use rollforward.Text.Splice.{Basic, splice-diff_middle, encode_utf16-Basic}

-- The calls of yrs that the wrapper makes on a document with one text field. `apply_update` decodes
-- an update and applies it, and gives the error's message where one of these fails.
pub record Yrs : Type 1 where
  pub Doc : Type 0
  pub StateVector : Type 0
  pub new_doc : Doc
  pub get_string : Doc → List ℕ
  pub state_vector : Doc → StateVector
  pub empty_vector : StateVector
  pub remove_range : Doc → ℕ → ℕ → Doc
  pub insert : Doc → ℕ → List ℕ → Doc
  pub encode_state_as_update : Doc → StateVector → Bytes
  pub apply_update : Doc → Bytes → Result Doc String

-- Every character is ASCII: one code unit, and one byte.
abbrev pub Ascii : List ℕ → Type 0
Ascii [] = Unit
Ascii (c ∷ text) = (c < 0x80) × Ascii text

-- What `remove_range` and `insert` do within the bounds of an ASCII content, where an offset is the
-- same number in bytes and in UTF-16 code units.
pub record EditsAscii (y : Yrs) : Type 0 where
  pub remove_range_lem :
      (doc : y.Doc) (start count : ℕ)
      → Ascii (y.get_string doc)
      → start + count ≤ length (y.get_string doc)
      → y.get_string (y.remove_range doc start count)
        ≡ take start (y.get_string doc) ++ drop (start + count) (y.get_string doc)
  pub insert_lem :
      (doc : y.Doc) (start : ℕ) (text : List ℕ)
      → Ascii (y.get_string doc)
      → Ascii text
      → start ≤ length (y.get_string doc)
      → y.get_string (y.insert doc start text)
        ≡ take start (y.get_string doc) ++ (text ++ drop start (y.get_string doc))

abbrev is_empty : List ℕ → Bool
is_empty [] = Bool.true
is_empty (c ∷ text) = Bool.false

is_empty-nil : (text : List ℕ) → is_empty text ≡ Bool.true → text ≡ []
is_empty-nil [] h = refl
is_empty-nil (c ∷ text) h = absurd (grind (arith, h))

Ascii-Basic : (text : List ℕ) → Ascii text → Basic text
Ascii-Basic [] h = tt
Ascii-Basic (c ∷ text) (h, hs) = (omega arith, Ascii-Basic text hs)

take-Ascii : (n : ℕ) (text : List ℕ) → Ascii text → Ascii (take n text)
take-Ascii zero text h = tt
take-Ascii (suc n) [] h = tt
take-Ascii (suc n) (c ∷ text) (h, hs) = (h, take-Ascii n text hs)

drop-Ascii : (n : ℕ) (text : List ℕ) → Ascii text → Ascii (drop n text)
drop-Ascii zero text h = h
drop-Ascii (suc n) [] h = tt
drop-Ascii (suc n) (c ∷ text) (h, hs) = drop-Ascii n text hs

append-Ascii : (xs ys : List ℕ) → Ascii xs → Ascii ys → Ascii (xs ++ ys)
append-Ascii [] ys h k = k
append-Ascii (x ∷ xs) ys (h, hs) k = (h, append-Ascii xs ys hs k)

-- A slice of an ASCII text is ASCII.
slice_chars-Ascii :
    (from until i : ℕ) (text : List ℕ) → Ascii text → Ascii (slice_chars from until i text)
unfolding slice_chars
slice_chars-Ascii from until i [] h = tt
slice_chars-Ascii from until i (c ∷ text) (h, hs) =
    let rest = slice_chars-Ascii from until (i + len_utf8 c) text hs in
    let more = slice_chars from until (i + len_utf8 c) text in
    elim (leb from i && ltb i until) as (λ keep. Ascii (if keep then c ∷ more else more)) [
      | Bool.true ↦ (h, rest)
      | Bool.false ↦ rest
    ]

take-take_append : (n : ℕ) (xs ys : List ℕ) → n ≤ length xs → take n (take n xs ++ ys) ≡ take n xs
take-take_append zero xs ys h = refl
take-take_append (suc n) [] ys h = absurd (omega arith)
take-take_append (suc n) (x ∷ xs) ys h = ap (λ l. x ∷ l) (take-take_append n xs ys (omega arith))

drop-take_append : (n : ℕ) (xs ys : List ℕ) → n ≤ length xs → drop n (take n xs ++ ys) ≡ ys
drop-take_append zero xs ys h = refl
drop-take_append (suc n) [] ys h = absurd (omega arith)
drop-take_append (suc n) (x ∷ xs) ys h = drop-take_append n xs ys (omega arith)

length-take : (n : ℕ) (xs : List ℕ) → n ≤ length xs → length (take n xs) ≡ n
length-take zero xs h = refl
length-take (suc n) [] h = absurd (omega arith)
length-take (suc n) (x ∷ xs) h = ap suc (length-take n xs (omega arith))

diff_middle-Ascii : (old new : List ℕ) → Ascii new → Ascii (diff_middle old new).inserted
unfolding diff_middle
diff_middle-Ascii old new h = slice_chars-Ascii _ _ 0 new h

-- The edit stays within the old text.
diff_middle-fits :
    (old new : List ℕ)
    → (diff_middle old new).start + (diff_middle old new).del_len ≤ length (encode_utf16 old)
unfolding diff_middle
diff_middle-fits old new =
    let u = encode_utf16 old in
    let p = common_prefix u (encode_utf16 new) in
    let (bound, _) = common_prefix-le u (encode_utf16 new) in omega arith

module _ (y : Yrs) where
  -- The transaction of `set_text`.
  edit_doc : y.Doc → Edit → y.Doc
  edit_doc doc e =
      let cut = if ltb 0 e.del_len then y.remove_range doc e.start e.del_len else doc in
      if is_empty e.inserted then cut else y.insert cut e.start e.inserted

  -- `set_text`: the update since the old state, and the document.
  unfoldable pub set_text : y.Doc → List ℕ → Bytes × y.Doc
  unfolding edit_doc
  set_text doc new =
      let before = y.state_vector doc in
      let doc' = edit_doc doc (diff_middle (y.get_string doc) new) in
      (y.encode_state_as_update doc' before, doc')

  unfoldable pub apply_delta : y.Doc → Bytes → Result y.Doc SyncError
  apply_delta doc delta = elim (y.apply_update doc delta) [
    | ok doc' ↦ ok doc'
    | err msg ↦ err (serde_error msg)
  ]

  unfoldable pub full_update : y.Doc → Bytes
  full_update doc = y.encode_state_as_update doc y.empty_vector

  apply_deltas : y.Doc → List Bytes → Result y.Doc SyncError
  apply_deltas doc [] = ok doc
  apply_deltas doc (d ∷ deltas) = do doc' ← apply_delta doc d; apply_deltas doc' deltas

  unfoldable pub from_baseline_and_deltas : Option Bytes → List Bytes → Result y.Doc SyncError
  unfolding apply_deltas apply_delta
  from_baseline_and_deltas none deltas = apply_deltas y.new_doc deltas
  from_baseline_and_deltas (some b) deltas = do
    doc ← apply_delta y.new_doc b
    apply_deltas doc deltas

  -- The transaction carries an edit within bounds out as a splice.
  edit_doc-splice :
      EditsAscii y
      → (doc : y.Doc) (e : Edit) → Ascii (y.get_string doc)
      → Ascii e.inserted
      → e.start + e.del_len ≤ length (y.get_string doc)
      → y.get_string (edit_doc doc e)
        ≡ take e.start (y.get_string doc)
          ++ (e.inserted ++ drop (e.start + e.del_len) (y.get_string doc))
  unfolding edit_doc
  edit_doc-splice laws doc e ascii ascii_in h =
      let text = y.get_string doc in
      let removed = y.remove_range doc e.start e.del_len in
      let tail = drop (e.start + e.del_len) text in
      let cut = laws.remove_range_lem doc e.start e.del_len ascii h in
      let fits : e.start ≤ length text = omega arith in
      let cut_ascii : Ascii (y.get_string removed) = rw cut (
        append-Ascii (take e.start text) tail (take-Ascii e.start text ascii)
          (drop-Ascii (e.start + e.del_len) text ascii)) in
      let cut_fits : e.start ≤ length (y.get_string removed) =
        rw cut
          (omega (arith, length-append (take e.start text) tail, length-take e.start text fits)) in
      ground (
        arith,
        cut,
        laws.insert_lem doc e.start e.inserted ascii ascii_in fits,
        laws.insert_lem removed e.start e.inserted cut_ascii ascii_in cut_fits,
        take-take_append e.start text tail fits,
        drop-take_append e.start text tail fits,
        take-append-drop e.start text,
        is_empty-nil e.inserted,
      )

  -- Setting an ASCII text on a document whose content is ASCII, and shorter than 4 Gi, makes it the
  -- content, if `remove_range` and `insert` edit an ASCII content as their names say.
  pub set_text-content :
      EditsAscii y
      → (doc : y.Doc) (new : List ℕ) → Ascii (y.get_string doc)
      → Ascii new
      → length (y.get_string doc) ≤ u32_max
      → y.get_string (set_text doc new).1 ≡ new
  unfolding set_text
  set_text-content laws doc new ascii ascii_new small =
      let old = y.get_string doc in
      let e = diff_middle old new in
      let units = encode_utf16-Basic old (Ascii-Basic old ascii) in
      let ascii_in = diff_middle-Ascii old new ascii_new in
      let fits : e.start + e.del_len ≤ length old = rw units at (diff_middle-fits old new) in
      let spliced = splice-diff_middle old new (Ascii-Basic new ascii_new) (rw units small) in
      edit_doc-splice laws doc e ascii ascii_in fits
      ∙ (rw
          (
            units,
            encode_utf16-Basic e.inserted (Ascii-Basic e.inserted ascii_in),
            encode_utf16-Basic new (Ascii-Basic new ascii_new),
          )
          at spliced)
