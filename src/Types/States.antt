-- ===== src/Types/States.antt =====
-- What the replica, the acknowledged baseline and the remote say of one resource.
use rollforward.Prelude.{ℕ, String, Option, none, some, List, [], list_ord, nat_ord}
use rollforward.Collections.BTreeSet

pub data ReplicaState : Type 0 where
  missing : ReplicaState
  present : (content_id : String) (size : ℕ) (version_token : String) → ReplicaState
  deleted : (version_token : String) → ReplicaState

pub data BaselineState : Type 0 where
  present : (content_id local_version : String) (remote_heads : List String) → BaselineState
  deleted : (remote_heads : List String) → BaselineState

pub data RemoteResourceState : Type 0 where
  missing : RemoteResourceState
  present : (content_id : String) (size : ℕ) (heads : List String) → RemoteResourceState
  deleted : (heads : List String) → RemoteResourceState
  forked : (heads : List String) → RemoteResourceState

abbrev pub local_content_id : ReplicaState → Option String
local_content_id (ReplicaState.present content_id _ _) = some content_id
local_content_id _ = none

abbrev pub version_token : ReplicaState → Option String
version_token (ReplicaState.present _ _ token) = some token
version_token (ReplicaState.deleted token) = some token
version_token ReplicaState.missing = none

-- `RemoteResourceState::present`, which sorts the heads and drops repetitions.
unfoldable pub remote_present : String → ℕ → List String → RemoteResourceState
remote_present content_id size heads =
    RemoteResourceState.present content_id size (BTreeSet.from_list heads)

abbrev pub remote_heads : RemoteResourceState → List String
remote_heads (RemoteResourceState.present _ _ heads) = heads
remote_heads (RemoteResourceState.deleted heads) = heads
remote_heads (RemoteResourceState.forked heads) = heads
remote_heads RemoteResourceState.missing = []

abbrev pub remote_content_id : RemoteResourceState → Option String
remote_content_id (RemoteResourceState.present content_id _ _) = some content_id
remote_content_id _ = none

abbrev pub remote_size : RemoteResourceState → ℕ
remote_size (RemoteResourceState.present _ size _) = size
remote_size _ = 0
