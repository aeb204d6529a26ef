-- ===== src/Types/Local.antt =====
-- What the local replica lists, reads and applies.
use rollforward.Prelude.{String, Bytes, Option, Eq}
use rollforward.Types.Key.{ResourceKey, ResourceKind}
use rollforward.Types.States.{ReplicaState}

pub record LocalResource : Type 0 where
  pub key : ResourceKey
  pub kind : ResourceKind
  pub state : ReplicaState

pub record ResourceContent : Type 0 where
  pub key : ResourceKey
  pub kind : ResourceKind
  pub version_token : String
  pub bytes : Bytes

pub data MutationPrecondition : Type 0 where
  missing : MutationPrecondition
  version : (version_token : String) → MutationPrecondition

pub data LocalMutation : Type 0 where
  write_present :
      (key : ResourceKey) (bytes : Bytes) (precondition : MutationPrecondition) → LocalMutation
  apply_delete : (key : ResourceKey) (precondition : MutationPrecondition) → LocalMutation
  create_copy : (key : ResourceKey) (bytes : Bytes) → LocalMutation

pub data ApplyStatus : Type 0 where
  applied precondition_failed failed : ApplyStatus

ApplyStatus-discrete : Discrete ApplyStatus
ApplyStatus-discrete = hlevel

instance unfoldable pub apply_status_eq : Eq ApplyStatus
unfolding ApplyStatus-discrete
apply_status_eq = record { dec = ApplyStatus-discrete }

pub record LocalApplyResult : Type 0 where
  pub key : ResourceKey
  pub status : ApplyStatus
  pub version_token : Option String
  pub error : Option String
