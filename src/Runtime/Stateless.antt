-- ===== src/Runtime/Stateless.antt =====
-- The operations of the runtime (src/runtime.rs) that do not change its state: they preserve every
-- predicate on it.
use rollforward.Prelude.{Option, String, Bytes, Bool, List, [], ◌∷◌}
use rollforward.Types.{
  ResourceKey, ResourceKind, ResourceChange, LocalResource, LocalMutation, LocalApplyResult,
  EngineEvent, ReplicaState, VersionChoice, PreservedVersion,
}
use rollforward.Runtime.State.{RuntimeState}
use rollforward.Runtime.Action.Preserves.{Preserves, preserves_rules}
use rollforward.Runtime.Inventory.{read_asked, read_rest, local_inventory}
use rollforward.Runtime.Content.{read_chunks, content_of, content_for_remote}
use rollforward.Runtime.Publish.{binary_change, text_change, change_of}
use rollforward.Runtime.Progress.{SyncRuntime, emit, emit_progress, save}
use rollforward.Runtime.Apply.{mutate}
use rollforward.Runtime.Resolve.{read_local, preserved_bytes, preserve, delete_present}

module _ {W : Type 0} (r : SyncRuntime W) {P : RuntimeState → Type 0} where
  pub Preserves-save : Preserves P (save r)
  unfolding save
  Preserves-save = search preserves_rules

  pub Preserves-emit : (events : List EngineEvent) → Preserves P (emit r events)
  unfolding emit
  Preserves-emit [] = search preserves_rules
  Preserves-emit (e ∷ events) = search preserves_rules

  pub Preserves-emit_progress : (e : EngineEvent) → Preserves P (emit_progress r e)
  unfolding emit_progress
  Preserves-emit_progress e = search preserves_rules

  Preserves-read_asked :
      (resources : List LocalResource) (asked : List (LocalResource × Bool))
      → Preserves P (read_asked r.hashing r.adapters resources asked)
  unfolding read_asked
  Preserves-read_asked resources [] = search preserves_rules
  Preserves-read_asked resources (q ∷ asked) = search preserves_rules

  pub Preserves-local_inventory :
      (state : RuntimeState) (scopes : List String)
      → Preserves P (local_inventory r.hashing r.adapters state scopes)
  unfolding local_inventory read_rest
  Preserves-local_inventory state scopes = search (preserves_rules, Preserves-read_asked)

  Preserves-content_of :
      (state : RuntimeState) (key : ResourceKey) (head : String) (change : ResourceChange)
      → Preserves P (content_of r.adapters r.yrs state key head change)
  unfolding content_of read_chunks
  Preserves-content_of state key head ResourceChange.delete = search preserves_rules
  Preserves-content_of state key head (ResourceChange.text_delta _) = search preserves_rules
  Preserves-content_of state key head (ResourceChange.binary_snapshot _ _ hashes) =
      search preserves_rules

  pub Preserves-content_for_remote :
      (state : RuntimeState) (key : ResourceKey) (selected : Option String)
      → Preserves P (content_for_remote r.adapters r.yrs state key selected)
  unfolding content_for_remote
  Preserves-content_for_remote state key selected = search (preserves_rules, Preserves-content_of)

  pub Preserves-change_of :
      (kind : ResourceKind) (key : ResourceKey) (bytes : Bytes)
      → Preserves P (change_of r.adapters r.hashing r.yrs r.codecs r.client_id kind key bytes)
  unfolding change_of binary_change text_change
  Preserves-change_of ResourceKind.binary key bytes = search preserves_rules
  Preserves-change_of ResourceKind.text key bytes = search preserves_rules

  pub Preserves-mutate :
      (mutation : LocalMutation) (absent : String) (reason : LocalApplyResult → String)
      → Preserves P (mutate r mutation absent reason)
  unfolding mutate
  Preserves-mutate mutation absent reason = search preserves_rules

  pub Preserves-read_local : (key : ResourceKey) → Preserves P (read_local r key)
  unfolding read_local
  Preserves-read_local key = search preserves_rules

  Preserves-preserved_bytes :
      (key : ResourceKey) (choice : VersionChoice) → Preserves P (preserved_bytes r key choice)
  unfolding preserved_bytes
  Preserves-preserved_bytes key VersionChoice.local =
      search (preserves_rules, Preserves-read_local) depth 20
  Preserves-preserved_bytes key VersionChoice.delete = search preserves_rules
  Preserves-preserved_bytes key (VersionChoice.remote id) =
      search (preserves_rules, Preserves-content_for_remote) depth 20

  pub Preserves-preserve :
      (key : ResourceKey) (version : PreservedVersion) → Preserves P (preserve r key version)
  unfolding preserve
  Preserves-preserve key version =
      search (preserves_rules, Preserves-mutate, Preserves-preserved_bytes) depth 20

  pub Preserves-delete_present :
      (key : ResourceKey) (local : ReplicaState) (absent : String)
      (reason : LocalApplyResult → String)
      → Preserves P (delete_present r key local absent reason)
  unfolding delete_present
  Preserves-delete_present key ReplicaState.missing absent reason = search preserves_rules
  Preserves-delete_present key (ReplicaState.deleted token) absent reason = search preserves_rules
  Preserves-delete_present key (ReplicaState.present id size token) absent reason =
      search (preserves_rules, Preserves-mutate)

pub ruleset stateless_rules = (
  preserves_rules, Preserves-save, Preserves-emit, Preserves-emit_progress,
  Preserves-local_inventory, Preserves-content_for_remote, Preserves-change_of, Preserves-mutate,
  Preserves-read_local, Preserves-preserve, Preserves-delete_present,
)
