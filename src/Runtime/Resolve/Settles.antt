-- ===== src/Runtime/Resolve/Settles.antt =====
-- `resolve` and `rollback` (src/runtime.rs) settle the resource where they succeed.
use rollforward.Prelude.{String, refl, [], ◌∷◌, ◌==◌, list_eq, nat_eq, list_ord, nat_ord}
use rollforward.Types.{
  ResourceKey, ReplicaState, ResourceChange, ConflictRecord, VersionChoice, ResolveConflictRequest,
  RollbackRequest, key_eq,
}
use rollforward.Runtime.State.{RuntimeState, heads}
use rollforward.Runtime.Action.{Machine, ◌>>=◌, get_state, outcome, continue}
use rollforward.Runtime.Action.Preserves.{Preserves-for_each, Preserves-modify}
use rollforward.Runtime.Action.Success.{OnSuccess, if-OnSuccess}
use rollforward.Runtime.Inventory.{local_inventory}
use rollforward.Runtime.Resolve.Current.{stale-OnSuccess}
use rollforward.Runtime.Rollback.{rollback_target, rollback_change, rollback_locked}
use rollforward.Runtime.Progress.{SyncRuntime, save}
use rollforward.Runtime.Stateless.{stateless_rules}
use rollforward.Runtime.Resolve.{
  current_state, resolve_local, resolve_deleted, resolve_selected, resolve_remote, resolve_primary,
  stale, resolve_current, resolve_if_same, resolve_conflict,
}
use rollforward.Runtime.Resolve.Settled.{
  Settled, Settles, Settles-bind, Settles-then, Settles-if, Settles-outcome, Settles-publish_bytes,
  Settles-settle_deleted, Settles-settle_version, remove_conflict-Settled,
}

module _ {W : Type 0} (r : SyncRuntime W) (before : RuntimeState) (conflict : ConflictRecord)
    (local : ReplicaState) (id : String) where
  abbrev key : ResourceKey
  key = conflict.resource

  Settles-resolve_selected :
      (commit_id : String) (change : ResourceChange)
      → Settles before key (resolve_selected r key local commit_id (heads before key) id change)
  unfolding resolve_selected resolve_deleted
  Settles-resolve_selected commit_id ResourceChange.delete = search Settles-settle_deleted
  Settles-resolve_selected commit_id (ResourceChange.text_delta delta) =
      search Settles-settle_version
  Settles-resolve_selected commit_id (ResourceChange.binary_snapshot content_id size hashes) =
      search Settles-settle_version

  Settles-resolve_primary :
      (choice : VersionChoice)
      → Settles before key (resolve_primary r conflict local (heads before key) id choice)
  unfolding resolve_primary resolve_local resolve_deleted resolve_remote
  Settles-resolve_primary VersionChoice.local =
      search (Settles-bind, stateless_rules, Settles-publish_bytes) depth 20
  Settles-resolve_primary VersionChoice.delete = search Settles-settle_deleted
  Settles-resolve_primary (VersionChoice.remote commit_id) =
      search (Settles-bind, Settles-if, Settles-outcome, stateless_rules, Settles-resolve_selected)
        depth 20

module _ {W : Type 0} (r : SyncRuntime W) (before : RuntimeState) (conflict : ConflictRecord)
    (request : ResolveConflictRequest) where
  Settles-stale : (id : String) → Settles before conflict.resource (stale r id)
  Settles-stale id = record {
    at = λ m same. stale-OnSuccess r (Settled before conflict.resource) id m;
  }

  Settles-resolve_current :
      (local : ReplicaState)
      → Settles before conflict.resource
          (resolve_current r request conflict (heads before conflict.resource) local)
  unfolding resolve_current
  Settles-resolve_current local =
      search
        (
          Settles-bind, Settles-then, Settles-resolve_primary, stateless_rules, Preserves-for_each,
          Preserves-modify, remove_conflict-Settled,
        )
        depth 20

  Settles-resolve_if_same :
      (local : ReplicaState)
      → Settles before conflict.resource
          (resolve_if_same r request conflict (heads before conflict.resource) local)
  unfolding resolve_if_same
  Settles-resolve_if_same local = search (Settles-if, Settles-resolve_current, Settles-stale)

module _ {W : Type 0} (r : SyncRuntime W) where
  -- A resolution that succeeds adds one commit, on top of all heads that the resource had, whatever was
  -- chosen, and the resource's baseline then acknowledges that commit alone.
  pub resolve_conflict-Settled :
      (request : ResolveConflictRequest) (conflict : ConflictRecord) (m : Machine W)
      → OnSuccess (Settled m.state conflict.resource) (resolve_conflict r request conflict m)
  unfolding resolve_conflict get_state ◌>>=◌ continue
  resolve_conflict-Settled request conflict m =
      let checked : Settles m.state conflict.resource (
          local_inventory r.hashing r.adapters m.state (conflict.resource.scope_id ∷ [])
          >>= (λ local.
              resolve_if_same r request conflict (heads m.state conflict.resource)
                (current_state conflict.resource local))) =
        search (Settles-bind, stateless_rules, Settles-resolve_if_same) in
      if-OnSuccess (Settled m.state conflict.resource)
        (heads m.state conflict.resource == conflict.remote_heads) _ _ m (λ _. checked.at m refl)
        (λ _. stale-OnSuccess r (Settled m.state conflict.resource) request.conflict_id m)

  Settles-rollback_change :
      (before : RuntimeState) (request : RollbackRequest) (local : ReplicaState)
      (change : ResourceChange)
      → Settles before request.resource
          (rollback_change r request local (heads before request.resource) change)
  unfolding rollback_change
  Settles-rollback_change before request local ResourceChange.delete = search Settles-settle_deleted
  Settles-rollback_change before request local (ResourceChange.text_delta delta) =
      search Settles-settle_version
  Settles-rollback_change before request local (ResourceChange.binary_snapshot id size hashes) =
      search Settles-settle_version

  -- A rollback that succeeds adds one commit, on top of all heads that the resource had, and the
  -- resource's baseline then acknowledges that commit alone.
  pub rollback_locked-Settled :
      (request : RollbackRequest) (m : Machine W)
      → OnSuccess (Settled m.state request.resource) (rollback_locked r request m)
  unfolding rollback_locked get_state ◌>>=◌ continue
  rollback_locked-Settled request m =
      let selected : Settles m.state request.resource (
          outcome (rollback_target request m.state) >>= (λ commit.
            local_inventory r.hashing r.adapters m.state (request.resource.scope_id ∷ [])
            >>= (λ local.
                rollback_change r request (current_state request.resource local)
                  (heads m.state request.resource) commit.change
                >>= (λ _. save r)))) =
        search (Settles-bind, Settles-then, stateless_rules, Settles-rollback_change) depth 20 in
      selected.at m refl
