-- ===== src/Runtime/Additive.antt =====
-- Predicates on the recorded commits that a new commit keeps, through the operations of the runtime
-- (src/runtime.rs) that a run is made of.
pub mod Applying
pub mod Uploads
pub mod Runs
pub mod Operations
pub mod Maintaining
use mathlib.Core.List.{foldl}
use rollforward.Prelude.{ℕ, Option, filter, String, Bytes, Bool, ◌≡◌, refl, List, [], ◌∷◌}
use rollforward.Types.{
  ResourceKey, ResourceKind, Commit, ConflictRecord, ResourceChange, LocalResource, EngineEvent,
}
use rollforward.Errors.{traverse}
use rollforward.Runtime.State.{RuntimeState, record_commit}
use rollforward.Runtime.Action.{
  Action, Machine, ◌>>=◌, get_state, read_world, modify, call, return, outcome,
}
use rollforward.Runtime.Action.Preserves.{
  Preserves, Preserves-modify, Preserves-for_each, preserves_rules,
}
use rollforward.Runtime.Refresh.{
  count_events, missing_ids, record_all, merge_cursors, refresh_remote,
}
use rollforward.Runtime.Snapshots.{snapshot_scope, snapshot_large_catalogs}
use rollforward.Runtime.Inventory.{read_asked, read_rest, local_inventory}
use rollforward.Runtime.Content.{read_chunks, content_of, content_for_remote}
use rollforward.Runtime.Upload.{insert_conflict}
use rollforward.Runtime.Publish.{
  bump, next_counter, binary_change, text_change, change_of, put_commit, publish_bytes,
  publish_delete, Change,
}
use rollforward.Runtime.Stateless.{stateless_rules}
use rollforward.Runtime.Progress.{SyncRuntime, emit, emit_progress, save}

-- A predicate that reads the commits and the conflicts only, and holds on when one more is recorded.
pub record Growing (P : RuntimeState → Type 0) : Type 0 where
  pub recorded : (commit : Commit) (s : RuntimeState) → P s → P (record_commit commit s)
  pub conflicted :
      (conflict : ConflictRecord) (s : RuntimeState) → P s → P (insert_conflict conflict s)
  pub elsewhere :
      (s t : RuntimeState) → t.commits ≡ s.commits → t.conflicts ≡ s.conflicts → P s → P t

-- A predicate that reads the commits only, and holds on when one more is recorded.
pub record Additive (P : RuntimeState → Type 0) : Type 0 where
  pub recorded : (commit : Commit) (s : RuntimeState) → P s → P (record_commit commit s)
  pub elsewhere : (s t : RuntimeState) → t.commits ≡ s.commits → P s → P t

pub growing : {P : RuntimeState → Type 0} → Additive P → Growing P
unfolding insert_conflict
growing add = record {
  recorded = add.recorded;
  conflicted = λ conflict s. add.elsewhere s (insert_conflict conflict s) refl;
  elsewhere = λ s t same _. add.elsewhere s t same;
}

module _ {W : Type 0} {P : RuntimeState → Type 0} (add : Additive P) where
  -- A change of the rest of the state.
  pub Preserves-elsewhere :
      (change : RuntimeState → RuntimeState)
      → ((s : RuntimeState) → (change s).commits ≡ s.commits)
      → Preserves {W = W} P (modify change)
  Preserves-elsewhere change same =
      Preserves-modify change (λ s. add.elsewhere s (change s) (same s))

module _ {W : Type 0} {P : RuntimeState → Type 0} (grow : Growing P) where
  -- A change of the rest of the state.
  pub Preserves-rest :
      (change : RuntimeState → RuntimeState)
      → ((s : RuntimeState) → (change s).commits ≡ s.commits)
      → ((s : RuntimeState) → (change s).conflicts ≡ s.conflicts)
      → Preserves {W = W} P (modify change)
  Preserves-rest change same kept =
      Preserves-modify change (λ s. grow.elsewhere s (change s) (same s) (kept s))

  pub Preserves-insert_conflict :
      (conflict : ConflictRecord) → Preserves {W = W} P (modify (insert_conflict conflict))
  Preserves-insert_conflict conflict =
      Preserves-modify (insert_conflict conflict) (grow.conflicted conflict)

  pub Preserves-record_commit :
      (commit : Commit) → Preserves {W = W} P (modify (record_commit commit))
  Preserves-record_commit commit = Preserves-modify (record_commit commit) (grow.recorded commit)

module _ {P : RuntimeState → Type 0} (grow : Growing P) where
  record_all-keeps : (commits : List Commit) (s : RuntimeState) → P s → P (record_all commits s)
  unfolding record_all
  record_all-keeps [] s h = h
  record_all-keeps (commit ∷ commits) s h =
      record_all-keeps commits (record_commit commit s) (grow.recorded commit s h)

module _ {W : Type 0} (r : SyncRuntime W) {P : RuntimeState → Type 0} (grow : Growing P) where
  pub Preserves-refresh_remote :
      (scopes : List String) → Preserves P (refresh_remote r.adapters scopes)
  unfolding refresh_remote count_events merge_cursors
  Preserves-refresh_remote scopes =
      search (preserves_rules, Preserves-rest grow, Preserves-modify, record_all-keeps grow) depth
        20

  Preserves-snapshot_scope :
      (scope : String) → Preserves P (snapshot_scope r.adapters r.hashing r.client_id scope)
  unfolding snapshot_scope
  Preserves-snapshot_scope scope = search (preserves_rules, Preserves-rest grow)

  pub Preserves-snapshot_large_catalogs :
      Preserves P (snapshot_large_catalogs r.adapters r.hashing r.client_id)
  unfolding snapshot_large_catalogs
  Preserves-snapshot_large_catalogs =
      search (preserves_rules, Preserves-for_each, Preserves-snapshot_scope)

  pub Preserves-next_counter :
      Preserves P (next_counter r.adapters r.hashing r.yrs r.codecs r.client_id)
  unfolding next_counter bump
  Preserves-next_counter = search (preserves_rules, Preserves-rest grow)

  Preserves-put_commit :
      (key : ResourceKey) (parents : List String) (counter : ℕ) (c : Change)
      → Preserves P
          (put_commit r.adapters r.hashing r.yrs r.codecs r.client_id key parents counter c)
  unfolding put_commit
  Preserves-put_commit key parents counter c =
      search (preserves_rules, Preserves-record_commit grow)

  pub Preserves-publish_bytes :
      (key : ResourceKey) (kind : ResourceKind) (bytes : Bytes) (parents : List String)
      → Preserves P
          (publish_bytes r.adapters r.hashing r.yrs r.codecs r.client_id key kind bytes parents)
  unfolding publish_bytes
  Preserves-publish_bytes key kind bytes parents =
      search (Preserves-next_counter, stateless_rules, Preserves-put_commit)

  pub Preserves-publish_delete :
      (key : ResourceKey) (parents : List String)
      → Preserves P (publish_delete r.adapters r.hashing r.yrs r.codecs r.client_id key parents)
  unfolding publish_delete
  Preserves-publish_delete key parents =
      search (preserves_rules, Preserves-next_counter, Preserves-put_commit)

pub ruleset additive_rules = (
  stateless_rules, growing, Preserves-elsewhere, Preserves-rest, Preserves-insert_conflict,
  Preserves-record_commit, Preserves-publish_bytes, Preserves-publish_delete,
  Preserves-next_counter, Preserves-refresh_remote, Preserves-snapshot_large_catalogs,
)
