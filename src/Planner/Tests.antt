-- ===== src/Planner/Tests.antt =====
-- Instances of the planner's theorems, and the tests of src/core.rs.
use mathlib.Core.List.Perm
use rollforward.Prelude.{
  ℤ, pos, ◌≡◌, refl, Option, none, some, List, [], ◌∷◌, list_eq, nat_eq, list_ord, nat_ord,
}
use rollforward.Collections.BTreeMap
use rollforward.Collections.BTreeSet
use rollforward.Types.{
  ResourceKey, ReplicaState, BaselineState, RemoteResourceState, ConflictRecord, PlanOperation,
  SyncPlan, new_conflict, content_vs_content, initial_divergence, key_ord, key_eq,
}
use rollforward.Foreign.{Hashing}
use rollforward.Planner.{plan_resource, plan_inventory}
use rollforward.Planner.ThreeWay.{verdict, three_way, clash, plan_resource-three_way}
use rollforward.Planner.Safety.{baseline_content_id, pull_no_lost_edit, push_no_lost_edit}
use rollforward.Planner.Inventory.{operation_for, operation_for-plan_inventory, plan_inventory-Perm}

-- A digest that is easy to follow: the bytes themselves, and the heads for a conflict.
abbrev plain : Hashing
plain = record {
  blake3 = λ bytes. bytes;
  conflict_seed = λ key kind local heads. key.resource_id;
  commit_bytes = λ key parents author counter now change. key.resource_id;
}

abbrev file : ResourceKey
file = record { scope_id = 1 ∷ []; resource_id = 2 ∷ [] }

abbrev other : ResourceKey
other = record { scope_id = 1 ∷ []; resource_id = 3 ∷ [] }

abbrev local_a : ReplicaState
local_a = ReplicaState.present (10 ∷ []) 1 (7 ∷ [])

abbrev local_b : ReplicaState
local_b = ReplicaState.present (11 ∷ []) 1 (8 ∷ [])

abbrev remote_a : RemoteResourceState
remote_a = RemoteResourceState.present (10 ∷ []) 1 ((20 ∷ []) ∷ [])

abbrev remote_b : RemoteResourceState
remote_b = RemoteResourceState.present (12 ∷ []) 1 ((21 ∷ []) ∷ (20 ∷ []) ∷ [])

abbrev base_a : Option BaselineState
base_a = some (BaselineState.present (10 ∷ []) (7 ∷ []) [])

abbrev clashing : ConflictRecord
clashing =
    new_conflict plain.blake3 plain.conflict_seed (pos 5) file content_vs_content local_b remote_b

initial_divergence_never_overwrites :
    plan_resource plain (pos 5) file local_a none remote_b
    ≡ PlanOperation.conflict (
        new_conflict plain.blake3 plain.conflict_seed
          (pos 5)
          file
          initial_divergence
          local_a
          remote_b)
unfolding plan_resource new_conflict list_eq nat_eq
initial_divergence_never_overwrites = refl

unchanged_local_pulls_remote_change :
    plan_resource plain (pos 5) file local_a base_a remote_b ≡ PlanOperation.download file remote_b
unfolding plan_resource list_eq nat_eq
unchanged_local_pulls_remote_change = refl

local_delete_publishes_tombstone :
    plan_resource plain (pos 5) file ReplicaState.missing base_a remote_a
    ≡ PlanOperation.publish_delete file
unfolding plan_resource list_eq nat_eq
local_delete_publishes_tombstone = refl

plan_clash :
    plan_resource plain (pos 5) file local_b base_a remote_b ≡ PlanOperation.conflict clashing
unfolding plan_resource new_conflict list_eq nat_eq
plan_clash = refl

plan_resource-three_way_example :
    verdict (plan_resource plain (pos 5) file local_b base_a remote_b)
    ≡ three_way local_b base_a remote_b
plan_resource-three_way_example = plan_resource-three_way plain (pos 5) file local_b base_a remote_b

three_way_clash : three_way local_b base_a remote_b ≡ clash
unfolding list_eq nat_eq
three_way_clash = refl

pull_no_lost_edit_example : baseline_content_id base_a ≡ some (10 ∷ [])
unfolding plan_resource list_eq nat_eq
pull_no_lost_edit_example =
    pull_no_lost_edit plain (pos 5) file local_a base_a remote_b (10 ∷ []) refl refl

push_no_lost_edit_example : baseline_content_id base_a ≡ some (10 ∷ [])
unfolding plan_resource list_eq nat_eq
push_no_lost_edit_example =
    push_no_lost_edit plain (pos 5) file local_b base_a remote_a (10 ∷ []) refl refl

abbrev now : ResourceKey → ℤ
now _ = pos 5

abbrev locals : List (ResourceKey × ReplicaState)
locals = (other, local_b) ∷ (file, local_a) ∷ []

abbrev locals' : List (ResourceKey × ReplicaState)
locals' = (file, local_a) ∷ (other, local_b) ∷ []

abbrev remotes : List (ResourceKey × RemoteResourceState)
remotes = (file, remote_b) ∷ []

abbrev baselines : List (ResourceKey × BaselineState)
baselines = (file, BaselineState.present (10 ∷ []) (7 ∷ []) []) ∷ []

abbrev sample_plan : SyncPlan
sample_plan = plan_inventory plain now locals baselines remotes

plan_inventory_lem : sample_plan ≡ record {
  operations = PlanOperation.download file remote_b ∷ PlanOperation.upload other local_b ∷ [];
}
unfolding plan_inventory key_ord key_eq list_eq nat_eq BTreeSet.from_list BTreeMap.from_list
    BTreeMap.get
plan_inventory_lem = refl

operation_for-plan_inventory_example :
    operation_for other sample_plan
    ≡ some (plan_resource plain (pos 5) other local_b none RemoteResourceState.missing)
unfolding key_ord key_eq list_eq nat_eq BTreeSet.member
operation_for-plan_inventory_example =
    operation_for-plan_inventory plain now locals baselines remotes other

plan_inventory-Perm_example : sample_plan ≡ plan_inventory plain now locals' baselines remotes
unfolding key_ord key_eq list_eq nat_eq
plan_inventory-Perm_example =
    plan_inventory-Perm plain now (Perm.swap (file, local_a) (other, local_b) [])
      (Perm.refl baselines) (Perm.refl remotes) (refl, (refl, tt)) (refl, tt) (refl, tt)
