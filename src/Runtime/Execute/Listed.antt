-- ===== src/Runtime/Execute/Listed.antt =====
-- `execute` (src/runtime.rs) puts the plan's conflicts on record.
use mathlib.Core.List.{Memᴰ}
use rollforward.Prelude.{
  Bool, all, ℕ, ◌+◌, String, true, ◌≡◌, refl, sym, arith, none, List, [], ◌∷◌, list_eq, nat_eq,
  list_ord, nat_ord,
}
use rollforward.Collections.BTreeMap
use rollforward.Collections.BTreeMap.Laws.{get-insert, get-insert_self}
use rollforward.Collections.Keys.{is_some}
use rollforward.Types.{
  LocalResource, ConflictRecord, EngineEvent, PlanOperation, SyncPlan, SyncRequest,
}
use rollforward.Runtime.State.{RuntimeState, record_commit}
use rollforward.Runtime.Action.{Machine}
use rollforward.Runtime.Action.Ensures.{
  Ensures, Infallible, Ensures-then, Ensures-after, Ensures-modify, Leaves, Leaves-after,
  Leaves-then, infallible_rules,
}
use rollforward.Runtime.Action.Success.{
  OnSuccess, Achieves, Achieves-after, Achieves-then, Achieves-modify,
}
use rollforward.Runtime.Stateless.{stateless_rules}
use rollforward.Runtime.Progress.{SyncRuntime, emit, emit_progress}
use rollforward.Runtime.Upload.{insert_conflict}
use rollforward.Runtime.Execute.{
  record_conflict, announce, announce_all, execute, set_active_run, finish, complete_run,
}
use rollforward.Runtime.Additive.{Growing, additive_rules}
use rollforward.Runtime.Additive.Applying.{Preserves-apply_all}
use rollforward.Runtime.Additive.Runs.{Preserves-announce_all, Preserves-upload}

-- A conflict with this id is on record.
abbrev Listed : String → RuntimeState → Type 0
Listed id state = is_some (BTreeMap.get id state.conflicts) ≡ true

-- An operation that is a conflict is on record.
abbrev pub is_listed : RuntimeState → PlanOperation → Bool
is_listed state (PlanOperation.conflict c) = is_some (BTreeMap.get c.id state.conflicts)
is_listed state (PlanOperation.noop key) = true
is_listed state (PlanOperation.establish_baseline key local heads) = true
is_listed state (PlanOperation.establish_deleted_baseline key heads) = true
is_listed state (PlanOperation.upload key local) = true
is_listed state (PlanOperation.download key remote) = true
is_listed state (PlanOperation.publish_delete key) = true
is_listed state (PlanOperation.apply_delete key local heads) = true

abbrev pub Idle : RuntimeState → Type 0
Idle state = state.active_run ≡ none

Listed-insert_conflict : (c : ConflictRecord) (s : RuntimeState) → Listed c.id (insert_conflict c s)
unfolding insert_conflict
Listed-insert_conflict c s = rw (get-insert_self c.id c s.conflicts) refl

Listed-Growing : (id : String) → Growing (Listed id)
Listed-Growing id = record {
  recorded = λ commit s h. unfold record_commit in h;
  conflicted = λ c s h. unfold insert_conflict in ground (arith, get-insert c.id id c s.conflicts);
  elsewhere = λ s t same kept h. rw kept h;
}

module _ {W : Type 0} (r : SyncRuntime W) where
  Infallible-emit_progress : (e : EngineEvent) → Infallible (emit_progress r e)
  unfolding emit_progress emit
  Infallible-emit_progress e = search infallible_rules

  module _ (run_id : String) where
    Infallible-record_conflict :
        (operation : PlanOperation) → Infallible (record_conflict r run_id operation)
    unfolding record_conflict
    Infallible-record_conflict (PlanOperation.conflict c) =
        search (infallible_rules, Infallible-emit_progress) depth 20
    Infallible-record_conflict (PlanOperation.noop key) = search infallible_rules
    Infallible-record_conflict (PlanOperation.establish_baseline key local heads) =
        search infallible_rules
    Infallible-record_conflict (PlanOperation.establish_deleted_baseline key heads) =
        search infallible_rules
    Infallible-record_conflict (PlanOperation.download key remote) = search infallible_rules
    Infallible-record_conflict (PlanOperation.upload key local) = search infallible_rules
    Infallible-record_conflict (PlanOperation.publish_delete key) = search infallible_rules
    Infallible-record_conflict (PlanOperation.apply_delete key local heads) =
        search infallible_rules

    Infallible-announce :
        (index : ℕ) (operation : PlanOperation) → Infallible (announce r run_id index operation)
    unfolding announce
    Infallible-announce index operation =
        search (infallible_rules, Infallible-emit_progress, Infallible-record_conflict) depth 20

    Infallible-announce_all :
        (index : ℕ) (operations : List PlanOperation)
        → Infallible (announce_all r run_id index operations)
    unfolding announce_all
    Infallible-announce_all index [] = search infallible_rules
    Infallible-announce_all index (operation ∷ operations) =
        Ensures-after (announce r run_id index operation) _ (Infallible-announce index operation)
          (λ _. Infallible-announce_all (index + 1) operations)

    -- The conflict is inserted, and the events do not touch it.
    announce-Listed :
        (index : ℕ) (c : ConflictRecord)
        → Ensures (Listed c.id) (announce r run_id index (PlanOperation.conflict c))
    unfolding announce record_conflict
    announce-Listed index c =
        let grow = Listed-Growing c.id in
        search
          (
            Ensures-after, Ensures-then, Ensures-modify, Listed-insert_conflict,
            Infallible-emit_progress, infallible_rules, additive_rules,
          )
          depth 20

    announce_all-Listed :
        (index : ℕ) (operations : List PlanOperation) (c : ConflictRecord)
        → Memᴰ (PlanOperation.conflict c) operations
        → Ensures (Listed c.id) (announce_all r run_id index operations)
    unfolding announce_all
    announce_all-Listed index [] c listed = elim listed [ ]
    announce_all-Listed index (operation ∷ operations) c (Memᴰ.head same) =
        let first : Ensures (Listed c.id) (announce r run_id index operation) =
          rw (sym same) (announce-Listed index c) in
        Ensures-then (announce r run_id index operation) _ first
          (λ _. Infallible-announce_all (index + 1) operations)
          (λ _. Preserves-announce_all r (Listed-Growing c.id) run_id (index + 1) operations)
    announce_all-Listed index (operation ∷ operations) c (Memᴰ.tail later) =
        Ensures-after (announce r run_id index operation) _ (Infallible-announce index operation)
          (λ _. announce_all-Listed (index + 1) operations c later)

    Leaves-execute :
        (request : SyncRequest) (local : List LocalResource) (plan : SyncPlan) (c : ConflictRecord)
        → Memᴰ (PlanOperation.conflict c) plan.operations
        → Leaves (Listed c.id) (execute r run_id request local plan)
    unfolding execute set_active_run finish complete_run
    Leaves-execute request local plan c listed =
        let grow = Listed-Growing c.id in
        search
          (
            Leaves-after, Leaves-then, announce_all-Listed, Infallible-emit_progress,
            infallible_rules, additive_rules, Preserves-upload, Preserves-apply_all,
          )
          depth 40

    Achieves-finish : (operations : List PlanOperation) → Achieves Idle (finish r run_id operations)
    unfolding finish set_active_run
    Achieves-finish operations =
        search (Achieves-after, Achieves-then, Achieves-modify, stateless_rules) depth 20

    Achieves-execute :
        (request : SyncRequest) (local : List LocalResource) (plan : SyncPlan)
        → Achieves Idle (execute r run_id request local plan)
    unfolding execute complete_run
    Achieves-execute request local plan =
        search (Achieves-after, Achieves-then, Achieves-finish, stateless_rules) depth 40

    each-Listed :
        (s : RuntimeState) (operations : List PlanOperation)
        → ((c : ConflictRecord) → Memᴰ (PlanOperation.conflict c) operations → Listed c.id s)
        → all (is_listed s) operations ≡ true
    each-Listed s [] h = refl
    each-Listed s (operation ∷ operations) h =
        let rest = each-Listed s operations (λ c m. h c (Memᴰ.tail m)) in
        let here : is_listed s operation ≡ true = first operation (λ c e. h c (Memᴰ.head e)) in
        ground (arith, here, rest)
      where
        first :
            (operation : PlanOperation)
            → ((c : ConflictRecord) → PlanOperation.conflict c ≡ operation → Listed c.id s)
            → is_listed s operation ≡ true
        first (PlanOperation.conflict c) h = h c refl
        first (PlanOperation.noop key) h = refl
        first (PlanOperation.establish_baseline key local heads) h = refl
        first (PlanOperation.establish_deleted_baseline key heads) h = refl
        first (PlanOperation.upload key local) h = refl
        first (PlanOperation.download key remote) h = refl
        first (PlanOperation.publish_delete key) h = refl
        first (PlanOperation.apply_delete key local heads) h = refl

    -- However a run ends, each conflict of its plan is on record for the user to resolve; and where the
    -- run succeeds, no run is left active.
    pub execute-Listed :
        (request : SyncRequest) (local : List LocalResource) (plan : SyncPlan) (m : Machine W)
        → (all (is_listed (execute r run_id request local plan m).0.state) plan.operations ≡ true)
          × OnSuccess Idle (execute r run_id request local plan m)
    execute-Listed request local plan m = (
      each-Listed (execute r run_id request local plan m).0.state plan.operations
          (λ c listed. (Leaves-execute request local plan c listed).at m),
      (Achieves-execute request local plan).at m,
    )
