-- ===== src/Runtime/Snapshots.antt =====
-- `snapshot_large_catalogs` (src/runtime.rs).
use rollforward.Prelude.{
  ℕ, ℤ, pos, negsuc, ◌+◌, ◌-◌, ◌*◌, ◌%◌, ◌^◌, String, List, [], ◌∷◌, map, ◌==◌, list_eq, nat_eq,
  list_ord, nat_ord, ltb, leb, if◌then◌else◌, filter,
}
use rollforward.Collections.BTreeMap
use rollforward.Collections.BTreeMap.{BTreeMap, keys, values}
use rollforward.Types.{CatalogCompaction}
use rollforward.Foreign.{Hashing}
use rollforward.Runtime.State.{RuntimeState}
use rollforward.Runtime.Action.{
  Action, Adapters, ◌>>=◌, get_state, read_world, modify, call, for_each,
}
use rollforward.Runtime.Refresh.{event_of}

-- A digit of a digest in hex.
hex_digit : ℕ → ℕ
hex_digit c = if ltb c 58 then c - 48 else c - 87

-- `u16::from_be_bytes` of a digest's first two bytes.
client_suffix : String → ℕ
unfolding hex_digit
client_suffix (a ∷ b ∷ c ∷ d ∷ _) =
    hex_digit a * 0x1000 + hex_digit b * 0x100 + hex_digit c * 0x10 + hex_digit d
client_suffix _ = 0

-- `now.max(0) as u64`.
abbrev millis : ℤ → ℕ
millis (pos n) = n
millis (negsuc _) = 0

-- `snapshot_generation`. The suffix fills the bits that the shift leaves empty.
unfoldable pub snapshot_generation : ℤ → String → ℕ
unfolding client_suffix
snapshot_generation now digest = (millis now * 2 ^ 16) % 2 ^ 64 + client_suffix digest

-- The scopes with 10,000 events or more since their last snapshot.
unfoldable pub due_scopes : BTreeMap String ℕ → List String
due_scopes counts = keys (filter (λ entry. leb 10000 entry.1) counts)

-- The snapshot of a scope: all its commits, and the cursors of its streams.
unfoldable pub scope_snapshot : ℕ → RuntimeState → String → CatalogCompaction
scope_snapshot generation state scope = record {
  snapshot = record {
    generation = generation;
    scope_id = scope;
    events =
        map event_of (filter (λ commit. commit.resource.scope_id == scope) (values state.commits));
    cursors = filter (λ cursor. cursor.scope_id == scope) state.cursors;
  };
  obsolete_commit_ids = [];
}

module _ {W : Type 0} (a : Adapters W) (f : Hashing) (client_id : String) where
  unfoldable pub snapshot_scope : String → Action W Unit
  unfolding scope_snapshot snapshot_generation
  snapshot_scope scope = do
    state ← get_state
    now ← read_world a.now_millis
    _ ← call (
        a.compact_catalog
          (scope_snapshot (snapshot_generation now (f.blake3 client_id)) state scope))
    modify (λ s. record s {
      catalog_events_since_snapshot = BTreeMap.insert scope 0 s.catalog_events_since_snapshot;
    })

  unfoldable pub snapshot_large_catalogs : Action W Unit
  unfolding due_scopes snapshot_scope
  snapshot_large_catalogs = do
    state ← get_state
    for_each snapshot_scope (due_scopes state.catalog_events_since_snapshot)
