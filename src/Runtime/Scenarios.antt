-- ===== src/Runtime/Scenarios.antt =====
-- The theorems on whole operations of the runtime, over the adapters of Examples.
use rollforward.Prelude.{
  some, none, all, ℕ, pos, String, true, ◌≡◌, refl, List, [], ◌∷◌, list_eq, nat_eq, ℕ_discrete,
  list_lt, int_lt, int_eq,
}
use rollforward.Collections.BTreeMap
use rollforward.Collections.BTreeMap.{BTreeMap}
use rollforward.Collections.BTreeSet
use rollforward.Collections.Sort.{sort_by}
use rollforward.Errors.{ok}
use rollforward.Types.{
  ApplyStatus, RollbackRequest, Commit, CommitBatch, ResourceChange, ReplicaState,
  RemoteResourceState, PlanOperation, SyncPlan, ConflictRecord, content_vs_content, VersionChoice,
  ResolveConflictRequest, MaintenanceRequest, key_eq, encoded,
}
use rollforward.Runtime.State.{default_state, heads, RuntimeState}
use rollforward.Runtime.Action.{Machine}
use rollforward.Runtime.Action.Outcomes.{Stepped}
use rollforward.Runtime.Refresh.Grows.{recorded}
use rollforward.Runtime.Heads.Advance.{IsKeyed}
use rollforward.Runtime.Progress.{SyncRuntime}
use rollforward.Runtime.Execute.{execute}
use rollforward.Runtime.Execute.Listed.{is_listed, Idle, execute-Listed}
use rollforward.Runtime.Apply.{apply_operation, apply_all}
use rollforward.Runtime.Apply.Accounts
use rollforward.Runtime.Apply.Accounts.{books, apply_operation-Stepped}
use rollforward.Runtime.Apply.Ends.{Kept, apply_all-ends}
use rollforward.Runtime.Resolve.{resolve_conflict}
use rollforward.Runtime.Action.Success.{OnSuccess}
use rollforward.Runtime.Resolve.Settled.{Settled}
use rollforward.Runtime.Resolve.Settles.{resolve_conflict-Settled, rollback_locked-Settled}
use rollforward.Runtime.Rollback.{rollback_locked}
use rollforward.Runtime.Resolve.Current.{Confirmed, resolve_conflict-Confirmed}
use rollforward.Runtime.Maintain.{obsolete}
use rollforward.Runtime.Maintain.Sweep.{maintain}
use rollforward.Runtime.Maintain.GivenUp.{maintain-Accounted}
use rollforward.Runtime.Maintain.Loop.{GivenUp, Accounted}
use rollforward.Runtime.Session.{
  Sync, Request, perform_syncs, perform_all, perform_syncs-recorded, perform_all-IsKeyed,
}
use rollforward.Runtime.Examples.{plain, content_only, codecs, file, batches, seen, start}

abbrev runtime : SyncRuntime (List CommitBatch)
runtime = record {
  client_id = 7 ∷ [];
  adapters = batches;
  hashing = plain;
  yrs = content_only;
  codecs = codecs;
}

abbrev syncs : List Sync
syncs =
    Sync.reconcile (record { scopes = (1 ∷ []) ∷ [] })
    ∷ Sync.rollback (record { resource = file; commit_id = 10 ∷ [] })
    ∷ []

perform_syncs-recorded_example : recorded (10 ∷ []) (perform_syncs runtime syncs start).state ≡ true
unfolding BTreeMap.get list_eq nat_eq
perform_syncs-recorded_example = perform_syncs-recorded runtime syncs start (10 ∷ []) refl

abbrev requests : List Request
requests =
    Request.sync (Sync.reconcile (record { scopes = (1 ∷ []) ∷ [] }))
    ∷ Request.maintain (record { scopes = []; history_retention_versions = 1 })
    ∷ []

perform_all-IsKeyed_example : IsKeyed (perform_all runtime requests start).state.commits
perform_all-IsKeyed_example = perform_all-IsKeyed runtime requests start (refl, tt)

abbrev fetch : PlanOperation
fetch = PlanOperation.download file (RemoteResourceState.present (5 ∷ 6 ∷ []) 2 ((10 ∷ []) ∷ []))

apply_operation-Stepped_example :
    Stepped books (Accounts.Accounted file) start (apply_operation runtime (3 ∷ []) [] fetch start)
apply_operation-Stepped_example = apply_operation-Stepped runtime (3 ∷ []) [] fetch start refl

apply_all-ends_example :
    ((apply_all runtime (3 ∷ []) [] (fetch ∷ PlanOperation.noop file ∷ []) start).1 ≡ ok tt)
    × Kept
        (fetch ∷ PlanOperation.noop file ∷ [])
        (books start)
        (books (apply_all runtime (3 ∷ []) [] (fetch ∷ PlanOperation.noop file ∷ []) start).0)
apply_all-ends_example =
    apply_all-ends runtime (3 ∷ []) [] (λ s. []) (λ s. refl) (λ bytes w. refl)
      (fetch ∷ PlanOperation.noop file ∷ []) start

abbrev diverged : ConflictRecord
diverged = record {
  id = 8 ∷ [];
  resource = file;
  kind = content_vs_content;
  local = ReplicaState.missing;
  remote_heads = (10 ∷ []) ∷ [];
  created_at = pos 0;
}

abbrev choice : ResolveConflictRequest
choice = record { conflict_id = 8 ∷ []; primary = VersionChoice.delete; preserved = [] }

resolve_conflict-Confirmed_example :
    OnSuccess
      (Confirmed runtime choice diverged start)
      (resolve_conflict runtime choice diverged start)
resolve_conflict-Confirmed_example = resolve_conflict-Confirmed runtime choice diverged start

resolve_conflict-Settled_example :
    OnSuccess (Settled seen file) (resolve_conflict runtime choice diverged start)
resolve_conflict-Settled_example = resolve_conflict-Settled runtime choice diverged start

abbrev back : RollbackRequest
back = record { resource = file; commit_id = 10 ∷ [] }

-- A replica that writes what it is given.
abbrev writing : SyncRuntime (List CommitBatch)
writing = record runtime {
  adapters = record batches {
    apply_mutations = λ mutations w. (
      w,
      ok (
          record {
            key = file;
            status = ApplyStatus.applied;
            version_token = some (6 ∷ []);
            error = none;
          }
          ∷ []),
    );
  };
}

rollback_locked-Settled_example : OnSuccess (Settled seen file) (rollback_locked writing back start)
rollback_locked-Settled_example = rollback_locked-Settled writing back start

-- Two versions, the later of which is the checkpoint.
abbrev version : String → List String → ℕ → Commit
version id parents time = record {
  id = id;
  resource = file;
  parents = parents;
  author = 7 ∷ [];
  client_counter = time;
  timestamp = pos time;
  change = ResourceChange.delete;
}

abbrev two_versions : Machine (List CommitBatch)
two_versions = record start {
  state = record default_state {
    commits =
        (10 ∷ [], version (10 ∷ []) [] 1) ∷ (11 ∷ [], version (11 ∷ []) ((10 ∷ []) ∷ []) 2) ∷ [];
    checkpoints = (encoded file, record { key = file; commit_id = 11 ∷ [] }) ∷ [];
  };
}

-- A replica whose only acknowledgement is of the checkpoint, and which lists nothing new.
abbrev maintained : SyncRuntime (List CommitBatch)
maintained = record runtime {
  adapters = record batches {
    scan_catalog =
        λ request w. (w, ok (record { events = []; cursors = []; snapshot_cursors = [] }));
    list_acknowledgements = λ keys w. (
      w,
      ok (
          record {
            client_id = 7 ∷ [];
            resource = file;
            observed_heads = (11 ∷ []) ∷ [];
            pinned_commits = [];
          }
          ∷ []),
    );
  };
}

abbrev keep_one : MaintenanceRequest
keep_one = record { scopes = []; history_retention_versions = 1 }

maintain-Accounted_example :
    Accounted
      (GivenUp maintained [] 1 two_versions)
      (10 ∷ [])
      (maintain maintained keep_one two_versions).0.state
unfolding BTreeMap.get list_eq nat_eq
maintain-Accounted_example = maintain-Accounted maintained keep_one two_versions (10 ∷ []) refl

-- A version on top of the checkpoint, by a client whose clock is behind.
abbrev behind : RuntimeState
behind = record two_versions.state {
  commits =
      (10 ∷ [], version (10 ∷ []) [] 1)
      ∷ (11 ∷ [], version (11 ∷ []) ((10 ∷ []) ∷ []) 9)
      ∷ (12 ∷ [], version (12 ∷ []) ((11 ∷ []) ∷ []) 5)
      ∷ [];
}

-- It is the head, and obsolete.
obsolete_head :
    (heads behind file ≡ (12 ∷ []) ∷ [])
    × (obsolete 1 behind [] file (11 ∷ []) ≡ (10 ∷ []) ∷ (12 ∷ []) ∷ [])
unfolding heads obsolete BTreeSet.difference BTreeSet.from_list key_eq ℕ_discrete list_lt list_eq
    nat_eq sort_by int_lt int_eq
obsolete_head = (refl, refl)

abbrev stopped : SyncPlan
stopped = record { operations = PlanOperation.conflict diverged ∷ [] }

execute-Listed_example :
    (all
        (is_listed
          (execute runtime (3 ∷ []) (record { scopes = (1 ∷ []) ∷ [] }) [] stopped start).0.state)
        stopped.operations
      ≡ true)
    × OnSuccess Idle (execute runtime (3 ∷ []) (record { scopes = (1 ∷ []) ∷ [] }) [] stopped start)
execute-Listed_example =
    execute-Listed runtime (3 ∷ []) (record { scopes = (1 ∷ []) ∷ [] }) [] stopped start
