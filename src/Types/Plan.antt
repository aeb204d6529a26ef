-- ===== src/Types/Plan.antt =====
-- `PlanOperation` and `SyncPlan`.
use rollforward.Prelude.{String, List}
use rollforward.Types.Key.{ResourceKey}
use rollforward.Types.States.{ReplicaState, RemoteResourceState}
use rollforward.Types.Conflict.{ConflictRecord}

pub data PlanOperation : Type 0 where
  noop : (key : ResourceKey) → PlanOperation
  establish_baseline :
      (key : ResourceKey) (local : ReplicaState) (remote_heads : List String) → PlanOperation
  establish_deleted_baseline : (key : ResourceKey) (remote_heads : List String) → PlanOperation
  upload : (key : ResourceKey) (local : ReplicaState) → PlanOperation
  download : (key : ResourceKey) (remote : RemoteResourceState) → PlanOperation
  publish_delete : (key : ResourceKey) → PlanOperation
  apply_delete :
      (key : ResourceKey) (local : ReplicaState) (remote_heads : List String) → PlanOperation
  conflict : (record_ : ConflictRecord) → PlanOperation

-- `PlanOperation::key`.
abbrev pub operation_key : PlanOperation → ResourceKey
operation_key (PlanOperation.noop key) = key
operation_key (PlanOperation.establish_baseline key _ _) = key
operation_key (PlanOperation.establish_deleted_baseline key _) = key
operation_key (PlanOperation.upload key _) = key
operation_key (PlanOperation.download key _) = key
operation_key (PlanOperation.publish_delete key) = key
operation_key (PlanOperation.apply_delete key _ _) = key
operation_key (PlanOperation.conflict r) = r.resource

pub record SyncPlan : Type 0 where
  pub operations : List PlanOperation
