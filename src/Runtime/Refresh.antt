-- ===== src/Runtime/Refresh.antt =====
-- `refresh_remote` (src/runtime.rs).
pub mod Cursors
pub mod Grows
use mathlib.Core.List.{foldl}
use rollforward.Prelude.{
  ℕ, ℤ, ◌+◌, ◌*◌, ◌%◌, ◌^◌, max, String, Bytes, Bool, true, false, not, Option, none, some, List,
  [], ◌∷◌, map, ◌==◌, list_eq, nat_eq, list_ord, nat_ord, pair_ord, leb, if◌then◌else◌, filter,
  unwrap_or,
}
use rollforward.Collections.BTreeMap
use rollforward.Collections.BTreeMap.{BTreeMap, values}
use rollforward.Types.{
  Commit, CatalogCursor, CatalogEvent, CatalogDelta, CatalogSnapshot, CatalogCompaction,
}
use rollforward.Runtime.State.{RuntimeState, record_commit}
use rollforward.Runtime.Action.{
  Action, Adapters, Machine, ◌>>=◌, get_state, modify, call, return, continue, for_each,
}

-- `+= 1` on a `u64`.
abbrev pub incr : ℕ → ℕ
incr n = (n + 1) % 2 ^ 64

-- A client and a scope.
abbrev pub Stream : Type 0
Stream = String × String

abbrev pub stream_of : CatalogCursor → Stream
stream_of cursor = (cursor.client_id, cursor.scope_id)

abbrev pub entry_of : CatalogCursor → Stream × ℕ
entry_of cursor = (stream_of cursor, cursor.counter)

abbrev pub cursor_of : Stream × ℕ → CatalogCursor
cursor_of (stream, counter) = record {
  client_id = stream.0;
  scope_id = stream.1;
  counter = counter;
}

-- Cursors collected into a map, a later one of a stream replacing an earlier one.
unfoldable pub cursor_map : List CatalogCursor → BTreeMap Stream ℕ
cursor_map cursors = BTreeMap.from_list (map entry_of cursors)

-- Whether a snapshot holds an event already.
unfoldable pub covered : BTreeMap Stream ℕ → CatalogEvent → Bool
covered coverage event =
    leb event.counter
      (unwrap_or 0 (BTreeMap.get (event.client_id, event.resource.scope_id) coverage))

unfoldable pub count_event :
    BTreeMap Stream ℕ → BTreeMap String ℕ → CatalogEvent → BTreeMap String ℕ
unfolding covered
count_event coverage counts event =
    let scope = event.resource.scope_id in
    if covered coverage event
    then counts
    else BTreeMap.insert scope (incr (unwrap_or 0 (BTreeMap.get scope counts))) counts

unfoldable pub count_events : CatalogDelta → RuntimeState → RuntimeState
unfolding count_event cursor_map
count_events delta state = record state {
  catalog_events_since_snapshot =
      foldl (count_event (cursor_map delta.snapshot_cursors)) state.catalog_events_since_snapshot
        delta.events;
}

-- The commits of the events that are not recorded yet.
unfoldable pub missing_ids : RuntimeState → List CatalogEvent → List String
missing_ids state events =
    map (λ event. event.commit_id)
      (filter (λ event. not (BTreeMap.contains_key event.commit_id state.commits)) events)

unfoldable pub record_all : List Commit → RuntimeState → RuntimeState
unfolding record_commit
record_all commits state = foldl (λ s commit. record_commit commit s) state commits

-- `entry(..).and_modify(max).or_insert(..)`: the counter that the entry is left with.
abbrev pub raised : Option ℕ → ℕ → ℕ
raised none counter = counter
raised (some old) counter = max old counter

unfoldable pub merge_cursor : BTreeMap Stream ℕ → CatalogCursor → BTreeMap Stream ℕ
merge_cursor cursors cursor =
    let stream = stream_of cursor in
    BTreeMap.insert stream (raised (BTreeMap.get stream cursors) cursor.counter) cursors

unfoldable pub merge_cursors : List CatalogCursor → RuntimeState → RuntimeState
unfolding merge_cursor cursor_map
merge_cursors reported state = record state {
  cursors = map cursor_of (foldl merge_cursor (cursor_map state.cursors) reported);
}

-- A snapshot's event, read off a commit.
abbrev pub event_of : Commit → CatalogEvent
event_of commit = record {
  client_id = commit.author;
  counter = commit.client_counter;
  commit_id = commit.id;
  resource = commit.resource;
}

module _ {W : Type 0} (a : Adapters W) where
  unfoldable pub refresh_remote : List String → Action W Unit
  unfolding count_events missing_ids record_all merge_cursors
  refresh_remote scopes = do
    state ← get_state
    delta ← call (a.scan_catalog (record { scopes = scopes; cursors = state.cursors }))
    _ ← modify (count_events delta)
    commits ← call (a.load_commits (missing_ids state delta.events))
    _ ← modify (record_all commits)
    modify (merge_cursors delta.cursors)
