-- ===== src/Planner/ThreeWay.antt =====
-- A three-way comparison, stated over contents alone, for `plan_resource` (src/core.rs).
use rollforward.Prelude.{
  ℤ, Bool, true, false, not, ◌&&◌, ◌≡◌, Option, some, arith, ◌==◌, list_eq, nat_eq, if◌then◌else◌,
}
use rollforward.Types.{
  ResourceKey, ReplicaState, BaselineState, RemoteResourceState, PlanOperation, operation_key,
}
use rollforward.Foreign.{Hashing}
use rollforward.Planner.{plan_resource}

-- The local side differs from what was last acknowledged.
abbrev pub local_changed : ReplicaState → Option BaselineState → Bool
local_changed (ReplicaState.present c _ _) (some (BaselineState.present base _ _)) = not (c == base)
local_changed (ReplicaState.present c _ _) _ = true
local_changed _ (some (BaselineState.present _ _ _)) = true
local_changed _ _ = false

-- So does the remote. A remote that has never heard of the resource has no change to offer.
abbrev pub remote_changed : RemoteResourceState → Option BaselineState → Bool
remote_changed (RemoteResourceState.present c _ _) (some (BaselineState.present base _ _)) =
    not (c == base)
remote_changed (RemoteResourceState.present c _ _) _ = true
remote_changed (RemoteResourceState.deleted _) (some (BaselineState.deleted _)) = false
remote_changed (RemoteResourceState.deleted _) _ = true
remote_changed (RemoteResourceState.forked _) _ = true
remote_changed RemoteResourceState.missing _ = false

-- Both sides hold the same content, or neither holds any.
abbrev pub agree : ReplicaState → RemoteResourceState → Bool
agree (ReplicaState.present c _ _) (RemoteResourceState.present d _ _) = c == d
agree (ReplicaState.present c _ _) _ = false
agree _ (RemoteResourceState.deleted _) = true
agree _ RemoteResourceState.missing = true
agree _ _ = false

-- The remote history has divergent heads.
abbrev pub is_forked : RemoteResourceState → Bool
is_forked (RemoteResourceState.forked _) = true
is_forked _ = false

pub data Verdict : Type 0 where
  settled push pull clash : Verdict

abbrev pub three_way : ReplicaState → Option BaselineState → RemoteResourceState → Verdict
three_way local baseline remote =
    if is_forked remote
    then clash
    else if agree local remote
    then settled
    else if remote_changed remote baseline && local_changed local baseline
    then clash
    else if remote_changed remote baseline
    then pull
    else push

-- The direction in which an operation moves content.
abbrev pub verdict : PlanOperation → Verdict
verdict (PlanOperation.noop _) = settled
verdict (PlanOperation.establish_baseline _ _ _) = settled
verdict (PlanOperation.establish_deleted_baseline _ _) = settled
verdict (PlanOperation.upload _ _) = push
verdict (PlanOperation.publish_delete _) = push
verdict (PlanOperation.download _ _) = pull
verdict (PlanOperation.apply_delete _ _ _) = pull
verdict (PlanOperation.conflict _) = clash

module _ (f : Hashing) where
  -- The planner follows the three-way comparison: equal contents are settled, a change on one side
  -- moves to the other, and changes on both sides, or a forked remote, are a conflict. It holds for
  -- every combination of local, baseline and remote state.
  pub plan_resource-three_way :
      (now : ℤ) (key : ResourceKey) (local : ReplicaState) (baseline : Option BaselineState)
      (remote : RemoteResourceState)
      → verdict (plan_resource f now key local baseline remote) ≡ three_way local baseline remote
  unfolding plan_resource
  plan_resource-three_way now key local baseline remote = ground arith

  -- Whatever it decides, the operation is about the resource that was asked for.
  pub operation_key-plan_resource :
      (now : ℤ) (key : ResourceKey) (local : ReplicaState) (baseline : Option BaselineState)
      (remote : RemoteResourceState)
      → operation_key (plan_resource f now key local baseline remote) ≡ key
  unfolding plan_resource
  operation_key-plan_resource now key local baseline remote = ground arith
