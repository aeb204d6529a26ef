-- ===== src/Runtime/Plan/Keys.antt =====
-- The resources of the plan that `build_plan` (src/runtime.rs) makes.
use rollforward.Prelude.{
  ℤ, String, ◌≡◌, refl, Option, none, some, List, [], ◌∷◌, map, arith, ◌==◌, ==→eq, list_eq, nat_eq,
  option_eq, find,
}
use rollforward.Collections.BTreeMap.Laws.{IsSorted}
use rollforward.Errors.{Result, ok, err, SyncError, ◌>>=◌}
use rollforward.Types.{
  ResourceKey, RemoteResourceState, ConflictRecord, LocalResource, PlanOperation, SyncPlan,
  operation_key, key_eq, kind_eq, key_ord, conflict_kind_eq,
}
use rollforward.Foreign.{Hashing}
use rollforward.Text.Document.{Yrs}
use rollforward.Planner.{plan_inventory}
use rollforward.Planner.Inventory.{plan_inventory-IsSorted}
use rollforward.Runtime.State.{RuntimeState, baseline_pairs}
use rollforward.Runtime.Remote.{remote_pairs}
use rollforward.Runtime.Plan.{uploaded, merge_texts, prioritize, build_plan}

find-key :
    (key : ResourceKey) (local : List LocalResource) (resource : LocalResource)
    → find (λ r. r.key == key) local ≡ some resource
    → resource.key ≡ key
find-key key [] resource e = absurd (grind (arith, e))
find-key key (r ∷ local) resource e = ground (arith, find-key key local resource, ==→eq r.key key)

operation_key-uploaded :
    (r : ConflictRecord) (local : List LocalResource) (found : Option LocalResource)
    → find (λ resource. resource.key == r.resource) local ≡ found
    → operation_key (uploaded r found) ≡ r.resource
operation_key-uploaded r local none e = refl
operation_key-uploaded r local (some resource) e = find-key r.resource local resource e

operation_key-merge_texts :
    (local : List LocalResource) (operation : PlanOperation)
    → operation_key (merge_texts local operation) ≡ operation_key operation
unfolding merge_texts
operation_key-merge_texts local (PlanOperation.conflict r) = ground (
  arith,
  operation_key-uploaded r local (find (λ resource. resource.key == r.resource) local) refl,
)
operation_key-merge_texts local (PlanOperation.noop key) = refl
operation_key-merge_texts local (PlanOperation.establish_baseline key l heads) = refl
operation_key-merge_texts local (PlanOperation.establish_deleted_baseline key heads) = refl
operation_key-merge_texts local (PlanOperation.upload key l) = refl
operation_key-merge_texts local (PlanOperation.download key r) = refl
operation_key-merge_texts local (PlanOperation.publish_delete key) = refl
operation_key-merge_texts local (PlanOperation.apply_delete key l heads) = refl

keys-merge_texts :
    (local : List LocalResource) (operations : List PlanOperation)
    → map operation_key (map (merge_texts local) operations) ≡ map operation_key operations
keys-merge_texts local [] = refl
keys-merge_texts local (operation ∷ operations) =
    ground (arith, operation_key-merge_texts local operation, keys-merge_texts local operations)

module _ (f : Hashing) (y : Yrs) (now : ResourceKey → ℤ) (state : RuntimeState)
    (scopes : List String) (local : List LocalResource) where
  planned_keys :
      (remote : Result (List (ResourceKey × RemoteResourceState)) SyncError) (plan : SyncPlan)
      → (remote >>= (λ r. ok (record {
        operations = prioritize none (
            map
              (merge_texts local)
              (plan_inventory f now
                (map (λ resource. (resource.key, resource.state)) local)
                (baseline_pairs state scopes)
                r).operations);
      })))
        ≡ ok plan
      → IsSorted (map operation_key plan.operations)
  unfolding prioritize
  planned_keys (err error) plan e = absurd (grind (arith, e))
  planned_keys (ok remote) plan e =
      let planned =
        plan_inventory f now (map (λ resource. (resource.key, resource.state)) local)
          (baseline_pairs state scopes) remote in
      let same : plan.operations ≡ map (merge_texts local) planned.operations = ground (arith, e) in
      rw (same, keys-merge_texts local planned.operations)
        (plan_inventory-IsSorted f now (map (λ resource. (resource.key, resource.state)) local)
          (baseline_pairs state scopes) remote)

  -- Without a host's priorities, the operations of the plan that is built stand in strictly ascending
  -- order of their keys: merging texts moves none, and no resource has two.
  pub build_plan-IsSorted :
      (plan : SyncPlan)
      → build_plan f y now none state scopes local ≡ ok plan
      → IsSorted (map operation_key plan.operations)
  unfolding build_plan
  build_plan-IsSorted plan e = planned_keys (remote_pairs f y state scopes) plan e
