-- ===== src/Planner/Inventory.antt =====
-- The plan of a whole inventory: one operation for each resource that any side knows, in key order.
use mathlib.Core.List.{Permᴰ, Perm}
use mathlib.Core.Logic.{∥∥₁_elim}
use rollforward.Prelude.{
  ℤ, Bool, ◌||◌, ◌≡◌, refl, Option, none, some, List, [], ◌∷◌, map, arith, ◌==◌, find,
  if◌then◌else◌, unwrap_or,
}
use rollforward.Collections.BTreeMap.Laws.{IsSorted}
use rollforward.Collections.BTreeMap.Canonical.{assigned, get-from_list}
use rollforward.Collections.BTreeSet
use rollforward.Collections.BTreeSet.{member}
use rollforward.Collections.Keys.{NodupKeys, member-keys-from_list, from_list-Permᴰ}
use rollforward.Types.{
  ResourceKey, ReplicaState, BaselineState, RemoteResourceState, PlanOperation, SyncPlan,
  operation_key, key_ord, key_eq,
}
use rollforward.Foreign.{Hashing}
use rollforward.Planner.{plan_resource, plan_inventory}
use rollforward.Planner.ThreeWay.{operation_key-plan_resource}

ruleset plan_lookups =
    (BTreeSet.member-from_list, BTreeSet.member-append, member-keys-from_list, get-from_list)

-- The operation that a plan has for a resource.
abbrev pub operation_for : ResourceKey → SyncPlan → Option PlanOperation
operation_for key plan = find (λ operation. operation_key operation == key) plan.operations

module _ (g : ResourceKey → PlanOperation)
    (keyed : (k : ResourceKey) → operation_key (g k) ≡ k) where
  map_keyed : (ks : List ResourceKey) → map operation_key (map g ks) ≡ ks
  map_keyed [] = refl
  map_keyed (k ∷ ks) = ground (arith, keyed k, map_keyed ks)

  find_keyed :
      (k : ResourceKey) (ks : List ResourceKey)
      → find (λ operation. operation_key operation == k) (map g ks)
        ≡ (if member k ks then some (g k) else none)
  unfolding member key_ord
  find_keyed k [] = refl
  find_keyed k (j ∷ ks) = ground (arith, keyed j, find_keyed k ks)

module _ (f : Hashing) (now : ResourceKey → ℤ) (local : List (ResourceKey × ReplicaState))
    (baselines : List (ResourceKey × BaselineState))
    (remote : List (ResourceKey × RemoteResourceState)) where
  -- The keys that some side knows.
  abbrev pub is_known : ResourceKey → Bool
  is_known k =
      member k (map (λ (j, _). j) local)
      || (member k (map (λ (j, _). j) baselines) || member k (map (λ (j, _). j) remote))

  -- The operations stand in strictly ascending order of their keys, so no resource is planned twice.
  pub plan_inventory-IsSorted :
      IsSorted (map operation_key (plan_inventory f now local baselines remote).operations)
  unfolding plan_inventory
  plan_inventory-IsSorted =
      rw (map_keyed _ (λ k. operation_key-plan_resource f (now k) k _ _ _))
        (BTreeSet.from_list-IsSorted _)

  -- A resource has an operation exactly if some side knows it. The operation is then the one that
  -- `plan_resource` gives for what each side says last of it, missing where it says nothing.
  pub operation_for-plan_inventory :
      (k : ResourceKey)
      → operation_for k (plan_inventory f now local baselines remote) ≡ (
          if is_known k
          then some (
              plan_resource f
                (now k)
                k
                (unwrap_or ReplicaState.missing (assigned k local))
                (assigned k baselines)
                (unwrap_or RemoteResourceState.missing (assigned k remote)))
          else none)
  unfolding plan_inventory
  operation_for-plan_inventory k =
      rw (find_keyed _ (λ j. operation_key-plan_resource f (now j) j _ _ _) k _) (simp plan_lookups)

module _ (f : Hashing) (now : ResourceKey → ℤ) {local local' : List (ResourceKey × ReplicaState)}
    {baselines baselines' : List (ResourceKey × BaselineState)}
    {remote remote' : List (ResourceKey × RemoteResourceState)} where
  plan_inventory-Permᴰ :
      Permᴰ local local'
      → Permᴰ baselines baselines'
      → Permᴰ remote remote'
      → NodupKeys local
      → NodupKeys baselines
      → NodupKeys remote
      → plan_inventory f now local baselines remote ≡ plan_inventory f now local' baselines' remote'
  unfolding plan_inventory
  plan_inventory-Permᴰ p q r d e g =
      rw (from_list-Permᴰ p d, from_list-Permᴰ q e, from_list-Permᴰ r g)

SyncPlan-set : IsSet SyncPlan
SyncPlan-set = hlevel

module _ (f : Hashing) (now : ResourceKey → ℤ) {local local' : List (ResourceKey × ReplicaState)}
    {baselines baselines' : List (ResourceKey × BaselineState)}
    {remote remote' : List (ResourceKey × RemoteResourceState)} where
  -- The plan does not depend on the order in which the three sides list their resources, if none
  -- lists a key twice.
  pub plan_inventory-Perm :
      Perm local local'
      → Perm baselines baselines'
      → Perm remote remote'
      → NodupKeys local
      → NodupKeys baselines
      → NodupKeys remote
      → plan_inventory f now local baselines remote ≡ plan_inventory f now local' baselines' remote'
  plan_inventory-Perm p q r d e g = ∥∥₁_elim p (SyncPlan-set _ _) λ p'.
      ∥∥₁_elim q (SyncPlan-set _ _)
        λ q'. ∥∥₁_elim r (SyncPlan-set _ _) λ r'. plan_inventory-Permᴰ f now p' q' r' d e g
