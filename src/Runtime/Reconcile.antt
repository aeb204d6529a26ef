-- ===== src/Runtime/Reconcile.antt =====
-- `preview`, `reconcile`, `retire_client` and `close` (src/runtime.rs).
use rollforward.Prelude.{
  ◌+◌, ℤ, pos, negsuc, String, Option, none, some, List, [], ◌∷◌, ◌++◌, str, decimal, list_ord,
  nat_ord, length,
}
use mathlib.Core.List.{foldl}
use rollforward.Collections.BTreeMap
use rollforward.Collections.BTreeSet
use rollforward.Types.{ResourceKey, SyncRequest, SyncPlan, SyncReport, LocalResource, encoded}
use rollforward.Runtime.State.{RuntimeState, RunJournal}
use rollforward.Runtime.Action.{
  Action, TextMergePolicy, ◌>>=◌, get_state, read_world, modify, call, return, outcome,
}
use rollforward.Runtime.Refresh.{refresh_remote}
use rollforward.Runtime.Snapshots.{snapshot_large_catalogs}
use rollforward.Runtime.Inventory.{local_inventory}
use rollforward.Runtime.Codecs.{Fields}
use rollforward.Runtime.Plan.{build_plan}
use rollforward.Runtime.Progress.{SyncRuntime, number, event, emit, save}
use rollforward.Runtime.Execute.{execute, set_active_run}

-- The host's priorities, if it has a policy.
unfoldable pub priority : Option TextMergePolicy → Option (ResourceKey → ℤ)
priority none = none
priority (some policy) = some policy.resource_priority

unfoldable pub int_decimal : ℤ → String
int_decimal (pos n) = decimal n
int_decimal (negsuc n) = str "-" ++ decimal (n + 1)

unfoldable pub insert_kind : RuntimeState → LocalResource → RuntimeState
insert_kind state resource = record state {
  kinds = BTreeMap.insert (encoded resource.key) resource.kind state.kinds;
}

unfoldable pub insert_kinds : List LocalResource → RuntimeState → RuntimeState
unfolding insert_kind
insert_kinds local state = foldl insert_kind state local

unfoldable pub retire : String → RuntimeState → RuntimeState
retire client_id state = record state {
  retired_clients = BTreeSet.insert client_id state.retired_clients;
}

module _ {W : Type 0} (r : SyncRuntime W) where
  -- The plan for the state at hand.
  unfoldable pub plan_state : List String → List LocalResource → Action W SyncPlan
  unfolding priority
  plan_state scopes local = do
    state ← get_state
    now ← read_world r.adapters.now_millis
    outcome (
        build_plan r.hashing r.yrs (λ key. now) (priority r.adapters.text_merge_policy) state scopes
          local)

  unfoldable pub preview_clone : SyncRequest → Action W SyncPlan
  unfolding plan_state
  preview_clone request = do
    _ ← refresh_remote r.adapters request.scopes
    state ← get_state
    local ← local_inventory r.hashing r.adapters state request.scopes
    plan_state request.scopes local

  -- `preview` works on a clone of the state.
  unfoldable pub preview : SyncRequest → Action W SyncPlan
  unfolding preview_clone
  preview request m =
      let (done, plan) = preview_clone request m in (record done { state = m.state }, plan)

  -- An event of `reconcile`.
  unfoldable pub emit_stage : String → String → Fields → Action W Unit
  emit_stage run_id stage fields = emit r (event r run_id run_id stage none fields ∷ [])

  unfoldable pub emit_recovery : String → Option RunJournal → Action W Unit
  emit_recovery run_id none = return tt
  emit_recovery run_id (some previous) =
      emit r (event r run_id previous.id (str "recovery") none [] ∷ [])

  -- From the refresh to the inventory.
  unfoldable pub scan : String → SyncRequest → Action W (List LocalResource)
  unfolding emit_stage
  scan run_id request = do
    _ ←
        emit_stage run_id (str "remote.scan.start")
          ((str "scopes", number (length request.scopes)) ∷ [])
    _ ← refresh_remote r.adapters request.scopes
    refreshed ← get_state
    _ ←
        emit_stage run_id (str "remote.scan.complete")
          ((str "commits", number (length refreshed.commits)) ∷ [])
    _ ← snapshot_large_catalogs r.adapters r.hashing r.client_id
    _ ← emit_stage run_id (str "local.scan.start") []
    state ← get_state
    local ← local_inventory r.hashing r.adapters state request.scopes
    _ ←
        emit_stage run_id (str "local.scan.complete")
          ((str "resources", number (length local)) ∷ [])
    return local

  unfoldable pub reconcile_run : String → SyncRequest → Action W SyncReport
  unfolding scan insert_kinds plan_state emit_stage emit_recovery
  reconcile_run run_id request = do
    state ← get_state
    _ ← modify (set_active_run none)
    local ← scan run_id request
    _ ← modify (insert_kinds local)
    plan ← plan_state request.scopes local
    _ ←
        emit_stage run_id (str "plan.complete")
          ((str "operations", number (length plan.operations)) ∷ [])
    _ ← emit_recovery run_id state.active_run
    execute r run_id request local plan

  unfoldable pub reconcile : SyncRequest → Action W SyncReport
  unfolding reconcile_run int_decimal
  reconcile request =
      read_world r.adapters.now_millis
      >>= (λ now. reconcile_run (r.client_id ++ (str "-" ++ int_decimal now)) request)

  unfoldable pub retire_client : String → Action W Unit
  unfolding retire
  retire_client client_id = modify (retire client_id) >>= (λ _. save r)

  unfoldable pub close : Action W Unit
  close = call r.adapters.close
