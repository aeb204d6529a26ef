-- ===== src/Runtime/Refresh/Cursors.antt =====
-- The cursors after `refresh_remote` (src/runtime.rs).
use mathlib.Core.List.{foldl}
use rollforward.Prelude.{
  ℕ, ◌≤◌, max, ◌≡◌, refl, ◌∙◌, ap, List, [], ◌∷◌, map, arith, ◌==◌, list_eq, nat_eq, pair_eq,
  list_ord, nat_ord, pair_ord, if◌then◌else◌, unwrap_or,
}
use rollforward.Collections.BTreeMap
use rollforward.Collections.BTreeMap.{BTreeMap, keys}
use rollforward.Collections.BTreeMap.Laws.{IsSorted, get-insert, insert-IsSorted}
use rollforward.Collections.BTreeMap.Canonical.{from_list-IsSorted, from_list-entries}
use rollforward.Types.{CatalogCursor}
use rollforward.Runtime.State.{RuntimeState}
use rollforward.Runtime.Refresh.{
  Stream, stream_of, cursor_map, raised, merge_cursor, merge_cursors, entry_of, cursor_of,
}

-- How far the catalog of a client and scope has been read.
abbrev pub cursor_at : Stream → RuntimeState → ℕ
cursor_at stream state = unwrap_or 0 (BTreeMap.get stream (cursor_map state.cursors))

-- The largest of a number and the counters that a list of cursors has for a stream.
abbrev pub highest : Stream → ℕ → List CatalogCursor → ℕ
highest stream n [] = n
highest stream n (cursor ∷ cursors) =
    if stream_of cursor == stream
    then highest stream (max n cursor.counter) cursors
    else highest stream n cursors

pub le-highest :
    (stream : Stream) (n : ℕ) (cursors : List CatalogCursor) → n ≤ highest stream n cursors
le-highest stream n [] = omega arith
le-highest stream n (cursor ∷ cursors) =
    ground (arith, le-highest stream (max n cursor.counter) cursors, le-highest stream n cursors)

get-merge_cursor :
    (stream : Stream) (m : BTreeMap Stream ℕ) (cursor : CatalogCursor)
    → unwrap_or 0 (BTreeMap.get stream (merge_cursor m cursor)) ≡ (
        if stream_of cursor == stream
        then max (unwrap_or 0 (BTreeMap.get stream m)) cursor.counter
        else unwrap_or 0 (BTreeMap.get stream m))
unfolding merge_cursor
get-merge_cursor stream m cursor =
    let counter = raised (BTreeMap.get (stream_of cursor) m) cursor.counter in
    ground (arith, get-insert (stream_of cursor) stream counter m)

get-merge_all :
    (stream : Stream) (reported : List CatalogCursor) (m : BTreeMap Stream ℕ)
    → unwrap_or 0 (BTreeMap.get stream (foldl merge_cursor m reported))
      ≡ highest stream (unwrap_or 0 (BTreeMap.get stream m)) reported
get-merge_all stream [] m = refl
get-merge_all stream (cursor ∷ reported) m =
    ground (
      arith,
      get-merge_all stream reported (merge_cursor m cursor),
      get-merge_cursor stream m cursor,
    )

merge_all-IsSorted :
    (reported : List CatalogCursor) (m : BTreeMap Stream ℕ)
    → IsSorted (keys m)
    → IsSorted (keys (foldl merge_cursor m reported))
unfolding merge_cursor
merge_all-IsSorted [] m s = s
merge_all-IsSorted (cursor ∷ reported) m s =
    merge_all-IsSorted reported (merge_cursor m cursor) (insert-IsSorted (stream_of cursor) _ m s)

entries : (m : BTreeMap Stream ℕ) → map entry_of (map cursor_of m) ≡ m
entries [] = refl
entries ((stream, n) ∷ m) = ap (λ l. (stream, n) ∷ l) (entries m)

-- Merging reported cursors takes each stream to the highest.
pub cursor_at-merge_cursors :
    (stream : Stream) (reported : List CatalogCursor) (state : RuntimeState)
    → cursor_at stream (merge_cursors reported state)
      ≡ highest stream (cursor_at stream state) reported
unfolding merge_cursors cursor_map
cursor_at-merge_cursors stream reported state =
    let merged = foldl merge_cursor (cursor_map state.cursors) reported in
    let sorted = merge_all-IsSorted reported (cursor_map state.cursors) (from_list-IsSorted _) in
    let back : cursor_map (map cursor_of merged) ≡ merged =
      ap BTreeMap.from_list (entries merged) ∙ from_list-entries merged sorted in
    ap (λ m. unwrap_or 0 (BTreeMap.get stream m)) back
    ∙ get-merge_all stream reported (cursor_map state.cursors)
