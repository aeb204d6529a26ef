-- ===== src/Runtime/Resolve/Current.antt =====
-- When a resolution (src/runtime.rs) succeeds, and what a conflict that is out of date leaves behind.
use rollforward.Prelude.{
  String, true, ◌≡◌, refl, ap, none, List, [], ◌∷◌, ◌==◌, list_eq, nat_eq, list_ord, nat_ord, ==→eq,
}
use rollforward.Collections.BTreeMap
use rollforward.Collections.BTreeMap.Laws.{get-remove_self}
use rollforward.Errors.{Result, ok, err, SyncError}
use rollforward.Types.{ConflictRecord, LocalResource, ReplicaState, ResolveConflictRequest, key_eq}
use rollforward.Runtime.State.{RuntimeState, heads}
use rollforward.Runtime.Action.{Machine, ◌>>=◌, get_state, modify, outcome, continue}
use rollforward.Runtime.Action.Success.{
  OnSuccess, OnSuccess-bind, OnSuccess-kept, OnSuccess-map, if-OnSuccess,
}
use rollforward.Runtime.Stateless.{Preserves-save}
use rollforward.Runtime.Inventory.{local_inventory}
use rollforward.Runtime.Progress.{SyncRuntime, save}
use rollforward.Runtime.Resolve.{
  remove_conflict, current_state, same_version, stale, resolve_current, resolve_if_same,
  resolve_conflict,
}

-- The conflict is no longer recorded.
abbrev pub Gone : String → RuntimeState → Type 0
Gone id state = BTreeMap.get id state.conflicts ≡ none

module _ {W : Type 0} (r : SyncRuntime W) where
  -- The last two steps.
  removed :
      (id : String) (m : Machine W)
      → OnSuccess (Gone id) ((modify (remove_conflict id) >>= (λ _. save r)) m)
  unfolding ◌>>=◌ continue modify remove_conflict
  removed id m =
      let n = record m { state = remove_conflict id m.state } in
      OnSuccess-kept (Gone id) (save r n)
        ((Preserves-save r {P = Gone id}).at n (get-remove_self id m.state.conflicts))

  resolve_current-Gone :
      (request : ResolveConflictRequest) (conflict : ConflictRecord) (parents : List String)
      (local : ReplicaState) (m : Machine W)
      → OnSuccess (Gone request.conflict_id) (resolve_current r request conflict parents local m)
  unfolding resolve_current
  resolve_current-Gone request conflict parents local m =
      OnSuccess-bind (Gone request.conflict_id) _ _ m
        (λ _ n. OnSuccess-bind (Gone request.conflict_id) _ _ n (λ _. removed request.conflict_id))

  -- A conflict that is out of date is never resolved.
  stale-saved :
      (Q : RuntimeState → Type 0) (done : Machine W × Result Unit SyncError)
      → OnSuccess Q
          (continue {B = Unit} (λ _. outcome (err SyncError.conflict_need_resolution)) done)
  unfolding continue outcome
  stale-saved Q (m, ok value) = tt
  stale-saved Q (m, err e) = tt

  pub stale-OnSuccess :
      (Q : RuntimeState → Type 0) (id : String) (m : Machine W) → OnSuccess Q (stale r id m)
  unfolding stale
  stale-OnSuccess Q id m = OnSuccess-bind Q _ _ m (λ _ n. unfold ◌>>=◌ in stale-saved Q (save r n))

  -- The replica's resource has the version and the content that the conflict was recorded with.
  abbrev pub IsCurrent : ConflictRecord → Machine W → Type 0
  IsCurrent conflict m =
      (local : List LocalResource) × ((local_inventory r.hashing r.adapters m.state
          (conflict.resource.scope_id ∷ []) m).1
        ≡ ok local)
      × (same_version (current_state conflict.resource local) conflict.local ≡ true)

  module _ (request : ResolveConflictRequest) (conflict : ConflictRecord) (m : Machine W) where
    -- Both sides were as recorded before, and the conflict is gone after.
    abbrev pub Confirmed : RuntimeState → Type 0
    Confirmed after =
        (heads m.state conflict.resource ≡ conflict.remote_heads)
        × IsCurrent conflict m
        × Gone request.conflict_id after

    listed :
        heads m.state conflict.resource ≡ conflict.remote_heads
        → (done : Machine W × Result (List LocalResource) SyncError)
        → (local_inventory r.hashing r.adapters m.state (conflict.resource.scope_id ∷ []) m) ≡ done
        → OnSuccess Confirmed (
            continue
              (λ local.
                resolve_if_same r request conflict
                  (heads m.state conflict.resource)
                  (current_state conflict.resource local))
              done)
    unfolding continue resolve_if_same
    listed h (n, err e) same = tt
    listed h (n, ok local) same =
        if-OnSuccess Confirmed (same_version (current_state conflict.resource local) conflict.local)
          _ _ n
          (λ current.
            OnSuccess-map (Gone request.conflict_id) Confirmed
              (resolve_current r request conflict (heads m.state conflict.resource)
                (current_state conflict.resource local) n)
              (λ s gone. (h, (local, ap (λ done. done.1) same, current), gone))
              (resolve_current-Gone request conflict (heads m.state conflict.resource)
                (current_state conflict.resource local) n))
          (λ _. stale-OnSuccess Confirmed request.conflict_id n)

    -- A resolution succeeds only where the remote heads and the replica's version are those that the
    -- conflict was recorded with, and the conflict is gone then.
    pub resolve_conflict-Confirmed : OnSuccess Confirmed (resolve_conflict r request conflict m)
    unfolding resolve_conflict get_state ◌>>=◌ continue
    resolve_conflict-Confirmed =
        if-OnSuccess Confirmed (heads m.state conflict.resource == conflict.remote_heads) _ _ m
          (λ h.
            listed (==→eq (heads m.state conflict.resource) conflict.remote_heads h)
              (local_inventory r.hashing r.adapters m.state (conflict.resource.scope_id ∷ []) m)
              refl)
          (λ _. stale-OnSuccess Confirmed request.conflict_id m)
