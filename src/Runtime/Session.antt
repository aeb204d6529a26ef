-- ===== src/Runtime/Session.antt =====
-- The runtime's public operations (src/runtime.rs) one after another, whatever they return.
use rollforward.Prelude.{String, true, ◌≡◌, refl, List, [], ◌∷◌, arith, list_ord, nat_ord}
use rollforward.Collections.BTreeMap
use rollforward.Collections.BTreeMap.{BTreeMap}
use rollforward.Collections.BTreeMap.Laws.{get-insert}
use rollforward.Types.{
  Commit, SyncRequest, ResolveConflictRequest, RollbackRequest, MaintenanceRequest,
}
use rollforward.Runtime.State.{RuntimeState, record_commit}
use rollforward.Runtime.Action.{Machine}
use rollforward.Runtime.Refresh.Grows.{recorded}
use rollforward.Runtime.Heads.Advance.{IsKeyed}
use rollforward.Runtime.Progress.{SyncRuntime}
use rollforward.Runtime.Reconcile
use rollforward.Runtime.Resolve
use rollforward.Runtime.Rollback
use rollforward.Runtime.Maintain.Sweep
use rollforward.Runtime.Maintain.Sweep.{remove_commits}
use rollforward.Runtime.Additive.{Additive}
use rollforward.Runtime.Additive.Runs.{Preserves-reconcile}
use rollforward.Runtime.Additive.Operations.{
  Preserves-resolve, Preserves-rollback, Preserves-preview, Preserves-retire_client,
  Preserves-close,
}
use rollforward.Runtime.Additive.Maintaining.{Preserves-maintain}

-- The methods that synchronize.
pub data Sync : Type 0 where
  preview : SyncRequest → Sync
  reconcile : SyncRequest → Sync
  resolve : ResolveConflictRequest → Sync
  rollback : RollbackRequest → Sync
  retire_client : String → Sync
  close : Sync

-- With the one that collects garbage.
pub data Request : Type 0 where
  sync : Sync → Request
  maintain : MaintenanceRequest → Request

module _ {W : Type 0} (r : SyncRuntime W) where
  -- What a method leaves behind, on success or on error.
  unfoldable pub perform_sync : Sync → Machine W → Machine W
  perform_sync (Sync.preview request) m = (Reconcile.preview r request m).0
  perform_sync (Sync.reconcile request) m = (Reconcile.reconcile r request m).0
  perform_sync (Sync.resolve request) m = (Resolve.resolve r request m).0
  perform_sync (Sync.rollback request) m = (Rollback.rollback r request m).0
  perform_sync (Sync.retire_client client_id) m = (Reconcile.retire_client r client_id m).0
  perform_sync Sync.close m = (Reconcile.close r m).0

  unfoldable pub perform_syncs : List Sync → Machine W → Machine W
  unfolding perform_sync
  perform_syncs [] m = m
  perform_syncs (s ∷ syncs) m = perform_syncs syncs (perform_sync s m)

  unfoldable pub perform : Request → Machine W → Machine W
  unfolding perform_sync
  perform (Request.sync s) m = perform_sync s m
  perform (Request.maintain request) m = (Sweep.maintain r request m).0

  unfoldable pub perform_all : List Request → Machine W → Machine W
  unfolding perform
  perform_all [] m = m
  perform_all (request ∷ requests) m = perform_all requests (perform request m)

  perform_sync-keeps :
      {P : RuntimeState → Type 0} (add : Additive P) (s : Sync) (m : Machine W)
      → P m.state
      → P (perform_sync s m).state
  unfolding perform_sync
  perform_sync-keeps add (Sync.preview request) m h = (Preserves-preview r add request).at m h
  perform_sync-keeps add (Sync.reconcile request) m h = (Preserves-reconcile r add request).at m h
  perform_sync-keeps add (Sync.resolve request) m h = (Preserves-resolve r add request).at m h
  perform_sync-keeps add (Sync.rollback request) m h = (Preserves-rollback r add request).at m h
  perform_sync-keeps add (Sync.retire_client client_id) m h =
      (Preserves-retire_client r add client_id).at m h
  perform_sync-keeps add Sync.close m h = (Preserves-close r add).at m h

recorded-Additive : (id : String) → Additive (λ s. recorded id s ≡ true)
recorded-Additive id = record {
  recorded = λ commit s h.
      unfold record_commit in ground (arith, get-insert commit.id id commit s.commits);
  elsewhere = λ s t same h. rw same h;
}

insert-IsKeyed :
    (commit : Commit) (m : BTreeMap String Commit)
    → IsKeyed m
    → IsKeyed (BTreeMap.insert commit.id commit m)
unfolding BTreeMap.insert
insert-IsKeyed commit [] h = (refl, tt)
insert-IsKeyed commit ((id, c) ∷ m) (e, h) = ground (arith, insert-IsKeyed commit m h)

IsKeyed-Additive : Additive (λ s. IsKeyed s.commits)
IsKeyed-Additive = record {
  recorded = λ commit s h. unfold record_commit in insert-IsKeyed commit s.commits h;
  elsewhere = λ s t same h. rw same h;
}

remove-IsKeyed :
    (id : String) (m : BTreeMap String Commit) → IsKeyed m → IsKeyed (BTreeMap.remove id m)
unfolding BTreeMap.remove
remove-IsKeyed id [] h = tt
remove-IsKeyed id ((j, c) ∷ m) (e, h) = ground (arith, remove-IsKeyed id m h)

remove_commits-IsKeyed :
    (ids : List String) (s : RuntimeState)
    → IsKeyed s.commits
    → IsKeyed (remove_commits ids s).commits
unfolding remove_commits
remove_commits-IsKeyed [] s h = h
remove_commits-IsKeyed (id ∷ ids) s h =
    remove_commits-IsKeyed ids (record s { commits = BTreeMap.remove id s.commits })
      (remove-IsKeyed id s.commits h)

module _ {W : Type 0} (r : SyncRuntime W) where
  -- Through any sequence of previews, reconciliations, resolutions, rollbacks and retirements, however
  -- each ends and whatever the adapters answer, a recorded commit stays recorded.
  pub perform_syncs-recorded :
      (syncs : List Sync) (m : Machine W) (id : String)
      → recorded id m.state ≡ true
      → recorded id (perform_syncs r syncs m).state ≡ true
  unfolding perform_syncs
  perform_syncs-recorded [] m id h = h
  perform_syncs-recorded (s ∷ syncs) m id h =
      perform_syncs-recorded syncs (perform_sync r s m) id
        (perform_sync-keeps r (recorded-Additive id) s m h)

  perform-IsKeyed :
      (request : Request) (m : Machine W)
      → IsKeyed m.state.commits
      → IsKeyed (perform r request m).state.commits
  unfolding perform
  perform-IsKeyed (Request.sync s) m h = perform_sync-keeps r IsKeyed-Additive s m h
  perform-IsKeyed (Request.maintain request) m h =
      (Preserves-maintain r IsKeyed-Additive remove_commits-IsKeyed request).at m h

  -- Through any sequence of the runtime's operations, maintenance included, however each ends and
  -- whatever the adapters answer, every commit stays stored under its id.
  pub perform_all-IsKeyed :
      (requests : List Request) (m : Machine W)
      → IsKeyed m.state.commits
      → IsKeyed (perform_all r requests m).state.commits
  unfolding perform_all
  perform_all-IsKeyed [] m h = h
  perform_all-IsKeyed (request ∷ requests) m h =
      perform_all-IsKeyed requests (perform r request m) (perform-IsKeyed request m h)
