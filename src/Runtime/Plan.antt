-- ===== src/Runtime/Plan.antt =====
-- `build_plan`, `precondition`, the baselines that the runtime sets, and `report_scopes`
-- (src/runtime.rs).
pub mod Keys
use rollforward.Prelude.{
  ℕ, ℤ, ◌+◌, String, Bytes, Bool, true, false, ◌&&◌, Option, none, some, List, [], ◌∷◌, map, ◌==◌,
  Ord, list_eq, nat_eq, option_eq, int_eq, int_lt, list_ord, nat_ord, ltb, if◌then◌else◌, filter,
  find, length, unwrap_or,
}
use rollforward.Collections.BTreeMap
use rollforward.Collections.BTreeMap.{BTreeMap}
use rollforward.Collections.Sort.{sort_by}
use rollforward.Errors.{Result, ok, err, SyncError, ◌>>=◌}
use rollforward.Types.{
  ResourceKey, ResourceKind, text, ReplicaState, BaselineState, RemoteResourceState, ConflictKind,
  ConflictRecord, content_vs_content, PlanOperation, SyncPlan, SyncRequest, ScopeStatus, complete,
  partial, failed, ScopeReport, LocalResource, MutationPrecondition, operation_key, version_token,
  encoded, key_eq, kind_eq, key_ord, conflict_kind_eq,
}
use rollforward.Foreign.{Hashing}
use rollforward.Text.Document.{Yrs}
use rollforward.Planner.{plan_inventory}
use rollforward.Runtime.State.{RuntimeState, StoredBaseline, baseline_pairs}
use rollforward.Runtime.Remote.{remote_pairs}

-- The upload of a resource that is there, in place of its conflict.
abbrev pub uploaded : ConflictRecord → Option LocalResource → PlanOperation
uploaded r none = PlanOperation.conflict r
uploaded r (some resource) = PlanOperation.upload resource.key resource.state

-- The body of the loop over the plan: two texts that have both changed are merged by uploading.
unfoldable pub merge_texts : List LocalResource → PlanOperation → PlanOperation
merge_texts local (PlanOperation.conflict r) =
    let kinds = BTreeMap.from_list (map (λ resource. (resource.key, resource.kind)) local) in
    if (r.kind == content_vs_content) && (BTreeMap.get r.resource kinds == some text)
    then uploaded r (find (λ resource. resource.key == r.resource) local)
    else PlanOperation.conflict r
merge_texts local operation = operation

-- By scope, then by the host's priority, then by resource.
unfoldable pub runs_before : (ResourceKey → ℤ) → PlanOperation → PlanOperation → Bool
runs_before priority left right =
    let l = operation_key left in
    let r = operation_key right in
    let below : String → String → Bool = Ord.lt (list_ord ⦃o = nat_ord⦄) in
    if l.scope_id == r.scope_id
    then (if priority l == priority r
        then below l.resource_id r.resource_id
        else int_lt (priority l) (priority r))
    else below l.scope_id r.scope_id

unfoldable pub prioritize : Option (ResourceKey → ℤ) → List PlanOperation → List PlanOperation
unfolding runs_before
prioritize none operations = operations
prioritize (some priority) operations = sort_by (runs_before priority) operations

module _ (f : Hashing) (y : Yrs) where
  -- `now key` is what the clock shows when `key` is planned.
  unfoldable pub build_plan :
      (ResourceKey → ℤ)
      → Option (ResourceKey → ℤ)
      → RuntimeState
      → List String
      → List LocalResource
      → Result SyncPlan SyncError
  unfolding merge_texts prioritize
  build_plan now priority state scopes local = remote_pairs f y state scopes >>= (λ remote.
      let plan =
        plan_inventory f now (map (λ resource. (resource.key, resource.state)) local)
          (baseline_pairs state scopes) remote in
      ok (record { operations = prioritize priority (map (merge_texts local) plan.operations) }))

unfoldable pub precondition : ReplicaState → MutationPrecondition
precondition local = elim (version_token local) [
  | none ↦ MutationPrecondition.missing
  | some token ↦ MutationPrecondition.version token
]

-- What both setters do.
unfoldable pub set_baseline : ResourceKey → BaselineState → String → RuntimeState → RuntimeState
set_baseline key baseline operation_id state = record state {
  baselines =
      BTreeMap.insert (encoded key)
        (record { key = key; state = baseline; last_operation_id = operation_id }) state.baselines;
}

unfoldable pub set_present_baseline :
    ResourceKey → String → String → List String → String → RuntimeState → RuntimeState
unfolding set_baseline
set_present_baseline key content_id local_version remote_heads operation_id =
    set_baseline key (BaselineState.present content_id local_version remote_heads) operation_id

unfoldable pub set_deleted_baseline :
    ResourceKey → List String → String → RuntimeState → RuntimeState
unfolding set_baseline
set_deleted_baseline key remote_heads operation_id =
    set_baseline key (BaselineState.deleted remote_heads) operation_id

abbrev pub is_conflict : PlanOperation → Bool
is_conflict (PlanOperation.conflict _) = true
is_conflict _ = false

unfoldable pub scope_status : ℕ → ℕ → ScopeStatus
scope_status conflicts failures =
    if ltb 0 failures then failed else if ltb 0 conflicts then partial else complete

unfoldable pub report_scope : SyncPlan → BTreeMap String ℕ → String → ScopeReport
unfolding scope_status
report_scope plan failures scope =
    let conflicts = length (
      filter (λ operation. ((operation_key operation).scope_id == scope) && is_conflict operation)
        plan.operations) in
    let failed = unwrap_or 0 (BTreeMap.get scope failures) in
    record {
      scope_id = scope;
      status = scope_status conflicts failed;
      conflicts = conflicts;
      failures = failed;
    }

unfoldable pub report_scopes : SyncRequest → SyncPlan → BTreeMap String ℕ → List ScopeReport
unfolding report_scope
report_scopes request plan failures = map (report_scope plan failures) request.scopes
