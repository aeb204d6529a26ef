-- ===== src/Runtime/Additive/Maintaining.antt =====
-- `maintain` (src/runtime.rs) preserves what a new commit and a removal of commits keep.
use rollforward.Prelude.{
  ℕ, zero, suc, String, Option, none, some, List, [], ◌∷◌, option_eq, list_eq, nat_eq,
}
use rollforward.Collections.BTreeMap.{BTreeMap}
use rollforward.Types.{
  ResourceKey, ResourceChange, MaintenanceRequest, V2MaintenanceReport, ResourceAck,
}
use rollforward.Runtime.State.{RuntimeState, StoredCheckpoint}
use rollforward.Runtime.Action.Preserves.{Preserves, Preserves-modify, Preserves-bind}
use rollforward.Runtime.Progress.{SyncRuntime}
use rollforward.Runtime.Maintain.{
  Maintenance, set_checkpoint, drop_checkpoint, publish_checkpoint, make_checkpoint, collect,
  reclaim, maintain_key, maintain_keys,
}
use rollforward.Runtime.Maintain.Sweep.{
  remove_commits, drop_checkpoints, sweep_scope, sweep_scopes, delete_packs, sweep_packs,
  maintain_scopes, maintain_retaining, maintain,
}
use rollforward.Runtime.Additive.{Additive, additive_rules}

-- A removal of these commits keeps a predicate.
abbrev pub Removes : (RuntimeState → Type 0) → List String → Type 0
Removes P ids = (s : RuntimeState) → P s → P (remove_commits ids s)

-- A predicate on the ids of every scope.
abbrev pub Each : (List String → Type 0) → BTreeMap String (List String) → Type 0
Each P [] = Unit
Each P ((scope, ids) ∷ m) = P ids × Each P m

pub Each-all :
    (P : List String → Type 0) (m : BTreeMap String (List String))
    → ((ids : List String) → P ids)
    → Each P m
Each-all P [] h = tt
Each-all P ((scope, ids) ∷ m) h = (h ids, Each-all P m h)

module _ {W : Type 0} (r : SyncRuntime W) {P : RuntimeState → Type 0} (add : Additive P) where
  Preserves-publish_checkpoint :
      (key : ResourceKey) (head : String) (change : ResourceChange)
      → Preserves P (publish_checkpoint r key head change)
  unfolding publish_checkpoint
  Preserves-publish_checkpoint key head ResourceChange.delete = search additive_rules
  Preserves-publish_checkpoint key head (ResourceChange.text_delta delta) =
      search additive_rules depth 20
  Preserves-publish_checkpoint key head (ResourceChange.binary_snapshot id size hashes) =
      search additive_rules depth 20

  Preserves-collect :
      (key : ResourceKey) (ids : List String) (acc : Maintenance)
      → Preserves P (collect r key ids acc)
  unfolding collect drop_checkpoint
  Preserves-collect key [] acc = search additive_rules depth 20
  Preserves-collect key (id ∷ ids) acc = search additive_rules

  Preserves-reclaim :
      (n : ℕ) (acks : List ResourceAck) (key : ResourceKey) (checkpoint : Option StoredCheckpoint)
      (acc : Maintenance)
      → Preserves P (reclaim r n acks key checkpoint acc)
  unfolding reclaim make_checkpoint set_checkpoint
  Preserves-reclaim n acks key none acc =
      search (additive_rules, Preserves-publish_checkpoint) depth 20
  Preserves-reclaim n acks key (some checkpoint) acc = search (additive_rules, Preserves-collect)

  pub Preserves-maintain_key :
      (n : ℕ) (acks : List ResourceAck) (key : ResourceKey) (acc : Maintenance)
      → Preserves P (maintain_key r n acks key acc)
  unfolding maintain_key drop_checkpoint
  Preserves-maintain_key n acks key acc = search (additive_rules, Preserves-reclaim) depth 20

  pub Preserves-maintain_keys :
      (n : ℕ) (acks : List ResourceAck) (keys : List ResourceKey) (acc : Maintenance)
      → Preserves P (maintain_keys r n acks keys acc)
  unfolding maintain_keys
  Preserves-maintain_keys n acks [] acc = search additive_rules
  Preserves-maintain_keys n acks (key ∷ keys) acc =
      search (additive_rules, Preserves-maintain_key, Preserves-maintain_keys n acks keys)

  Preserves-sweep_scope :
      (scope : String) (ids : List String) (report : V2MaintenanceReport)
      → Removes P ids
      → Preserves P (sweep_scope r scope ids report)
  unfolding sweep_scope drop_checkpoints
  Preserves-sweep_scope scope ids report remove =
      search (additive_rules, Preserves-modify (remove_commits ids) remove) depth 20

  pub Preserves-sweep_scopes :
      (scopes : BTreeMap String (List String)) (report : V2MaintenanceReport)
      → Each (Removes P) scopes
      → Preserves P (sweep_scopes r scopes report)
  unfolding sweep_scopes
  Preserves-sweep_scopes [] report remove = search additive_rules
  Preserves-sweep_scopes ((scope, ids) ∷ scopes) report (first, rest) =
      Preserves-bind (sweep_scope r scope ids report) _
        (Preserves-sweep_scope scope ids report first)
        (λ report'. Preserves-sweep_scopes scopes report' rest)

  Preserves-delete_packs :
      (packs : List String) (report : V2MaintenanceReport)
      → Preserves P (delete_packs r packs report)
  unfolding delete_packs
  Preserves-delete_packs [] report = search additive_rules
  Preserves-delete_packs (pack ∷ packs) report = search additive_rules

  pub Preserves-sweep_packs : (report : V2MaintenanceReport) → Preserves P (sweep_packs r report)
  unfolding sweep_packs
  Preserves-sweep_packs report = search (additive_rules, Preserves-delete_packs) depth 20

  module _ (remove : (ids : List String) → Removes P ids) where
    Preserves-maintain_retaining :
        (scopes : List String) (n : ℕ) → Preserves P (maintain_retaining r scopes n)
    unfolding maintain_retaining maintain_scopes
    Preserves-maintain_retaining scopes zero = search additive_rules
    Preserves-maintain_retaining scopes (suc n) =
        search
          (
            additive_rules, Preserves-maintain_keys, Preserves-sweep_scopes, Preserves-sweep_packs,
            Each-all, remove,
          )
          depth 30

    pub Preserves-maintain : (request : MaintenanceRequest) → Preserves P (maintain r request)
    unfolding maintain
    Preserves-maintain request =
        Preserves-maintain_retaining request.scopes request.history_retention_versions
