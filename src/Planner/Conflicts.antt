-- ===== src/Planner/Conflicts.antt =====
-- What a planned conflict records.
use rollforward.Prelude.{ℤ, ◌≡◌, Option, none, some, arith, nat_ord, list_ord}
use rollforward.Collections.Sort.{sort}
use rollforward.Types.{
  ResourceKey, ReplicaState, BaselineState, RemoteResourceState, ConflictKind, ConflictRecord,
  PlanOperation, remote_heads, initial_divergence, content_vs_content, delete_vs_modify,
  modify_vs_delete, remote_fork,
}
use rollforward.Foreign.{Hashing}
use rollforward.Planner.{plan_resource}

-- The kind that fits the two sides of a conflict.
abbrev pub kind_of_clash : ReplicaState → Option BaselineState → RemoteResourceState → ConflictKind
kind_of_clash local baseline (RemoteResourceState.forked _) = remote_fork
kind_of_clash (ReplicaState.present _ _ _) none (RemoteResourceState.present _ _ _) =
    initial_divergence
kind_of_clash (ReplicaState.present _ _ _) (some _) (RemoteResourceState.present _ _ _) =
    content_vs_content
kind_of_clash (ReplicaState.present _ _ _) baseline remote = modify_vs_delete
kind_of_clash local baseline remote = delete_vs_modify

module _ (f : Hashing) (key : ResourceKey) (local : ReplicaState) (baseline : Option BaselineState)
    (remote : RemoteResourceState) where
  -- A planned conflict names the resource, keeps the local state and the remote heads in order,
  -- has the kind that fits the two sides, and the time of planning.
  plan_resource-conflict :
      (now : ℤ) (r : ConflictRecord)
      → plan_resource f now key local baseline remote ≡ PlanOperation.conflict r
      → (r.resource ≡ key)
        × (r.local ≡ local)
        × (r.remote_heads ≡ sort (remote_heads remote))
        × (r.kind ≡ kind_of_clash local baseline remote)
        × (r.created_at ≡ now)
  unfolding plan_resource
  plan_resource-conflict now r h = ground arith

  -- A conflict that is found again at another time has the same record but for that time: its
  -- identity is stable over runs.
  plan_resource-conflict_again :
      (now later : ℤ) (r : ConflictRecord)
      → plan_resource f now key local baseline remote ≡ PlanOperation.conflict r
      → plan_resource f later key local baseline remote
        ≡ PlanOperation.conflict (record r { created_at = later })
  unfolding plan_resource
  plan_resource-conflict_again now later r h = ground arith
