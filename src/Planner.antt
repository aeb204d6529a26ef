-- ===== src/Planner.antt =====
-- The synchronization planner (src/core.rs).
pub mod ThreeWay
pub mod Safety
pub mod Conflicts
pub mod Inventory
mod Tests
use rollforward.Prelude.{
  ℤ, String, Option, none, some, List, [], ◌∷◌, map, ◌==◌, ◌++◌, list_eq, nat_eq, if◌then◌else◌,
  unwrap_or,
}
use rollforward.Collections.BTreeMap
use rollforward.Collections.BTreeMap.{BTreeMap, keys}
use rollforward.Collections.BTreeSet
use rollforward.Types.{
  ResourceKey, ReplicaState, BaselineState, RemoteResourceState, ConflictKind, ConflictRecord,
  PlanOperation, SyncPlan, new_conflict, initial_divergence, content_vs_content, delete_vs_modify,
  modify_vs_delete, remote_fork, key_ord,
}
use rollforward.Foreign.{Hashing}

module _ (f : Hashing) where
  -- The closure `conflict` of `plan_resource`.
  conflict_of : ℤ → ResourceKey → ConflictKind → ReplicaState → RemoteResourceState → PlanOperation
  conflict_of now key kind local remote =
      PlanOperation.conflict (new_conflict f.blake3 f.conflict_seed now key kind local remote)

  -- `plan_resource`; `now` is what the clock shows where a conflict is recorded.
  unfoldable pub plan_resource :
      ℤ → ResourceKey → ReplicaState → Option BaselineState → RemoteResourceState → PlanOperation
  unfolding conflict_of new_conflict
  plan_resource now key local baseline (RemoteResourceState.forked heads) =
      conflict_of now key remote_fork local (RemoteResourceState.forked heads)
  plan_resource now key (ReplicaState.present local_id local_size token) baseline
        (RemoteResourceState.present remote_id remote_size heads) =
      let local = ReplicaState.present local_id local_size token in
      let remote = RemoteResourceState.present remote_id remote_size heads in
      if local_id == remote_id
      then PlanOperation.establish_baseline key local heads
      else elim baseline [
        | none ↦ conflict_of now key initial_divergence local remote
        | some (BaselineState.present base _ _) ↦
            if local_id == base
            then PlanOperation.download key remote
            else if remote_id == base
            then PlanOperation.upload key local
            else conflict_of now key content_vs_content local remote
        | some (BaselineState.deleted _) ↦ conflict_of now key content_vs_content local remote
      ]
  plan_resource now key (ReplicaState.present local_id size token) baseline
        RemoteResourceState.missing =
      PlanOperation.upload key (ReplicaState.present local_id size token)
  plan_resource now key (ReplicaState.present local_id size token) baseline
        (RemoteResourceState.deleted heads) =
      let local = ReplicaState.present local_id size token in
      let remote = RemoteResourceState.deleted heads in
      elim baseline [
        | none ↦ conflict_of now key modify_vs_delete local remote
        | some (BaselineState.present base _ _) ↦
            if local_id == base
            then PlanOperation.apply_delete key local heads
            else conflict_of now key modify_vs_delete local remote
        | some (BaselineState.deleted _) ↦ PlanOperation.upload key local
      ]
  plan_resource now key local baseline (RemoteResourceState.present remote_id size heads) =
      let remote = RemoteResourceState.present remote_id size heads in
      elim baseline [
        | none ↦ PlanOperation.download key remote
        | some (BaselineState.deleted _) ↦ PlanOperation.download key remote
        | some (BaselineState.present base _ _) ↦
            if remote_id == base
            then PlanOperation.publish_delete key
            else conflict_of now key delete_vs_modify local remote
      ]
  plan_resource now key local baseline (RemoteResourceState.deleted heads) =
      PlanOperation.establish_deleted_baseline key heads
  plan_resource now key local baseline RemoteResourceState.missing = PlanOperation.noop key

  -- One resource of the union, from the three maps.
  unfoldable pub plan_key :
      (ResourceKey → ℤ)
      → BTreeMap ResourceKey ReplicaState
      → BTreeMap ResourceKey BaselineState
      → BTreeMap ResourceKey RemoteResourceState
      → ResourceKey
      → PlanOperation
  unfolding plan_resource
  plan_key now local baselines remote key =
      plan_resource (now key) key (unwrap_or ReplicaState.missing (BTreeMap.get key local))
        (BTreeMap.get key baselines)
        (unwrap_or RemoteResourceState.missing (BTreeMap.get key remote))

  -- `plan_inventory`; `now key` is what the clock shows when `key` is planned.
  unfoldable pub plan_inventory :
      (ResourceKey → ℤ)
      → List (ResourceKey × ReplicaState)
      → List (ResourceKey × BaselineState)
      → List (ResourceKey × RemoteResourceState)
      → SyncPlan
  unfolding plan_key
  plan_inventory now local baselines remote =
      let local' = BTreeMap.from_list local in
      let baselines' = BTreeMap.from_list baselines in
      let remote' = BTreeMap.from_list remote in
      let union = BTreeSet.from_list (keys local' ++ (keys baselines' ++ keys remote')) in
      record { operations = map (plan_key now local' baselines' remote') union }
