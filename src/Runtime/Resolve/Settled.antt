-- ===== src/Runtime/Resolve/Settled.antt =====
-- What a resolution or a rollback (src/runtime.rs) that succeeds has published and acknowledged.
use rollforward.Prelude.{
  String, Bytes, Bool, true, false, ◌≡◌, refl, ap, ◌∙◌, some, List, [], ◌∷◌, list_eq, nat_eq,
  list_ord, nat_ord, if◌then◌else◌,
}
use rollforward.Collections.BTreeMap
use rollforward.Collections.BTreeMap.Laws.{get-insert_self}
use rollforward.Collections.BTreeSet
use rollforward.Collections.BTreeSet.Canonical.{from_list-sorted}
use rollforward.Errors.{Result, ok, err, SyncError}
use rollforward.Types.{
  ResourceKey, ResourceKind, ReplicaState, BaselineState, Commit, ResourceChange, LocalApplyResult,
  encoded, key_eq,
}
use rollforward.Runtime.State.{RuntimeState, StoredBaseline, heads, record_commit}
use rollforward.Runtime.Heads.{heads-IsSorted}
use rollforward.Runtime.Action.{Action, Machine, ◌>>=◌, modify, outcome, continue}
use rollforward.Runtime.Action.Preserves.{Preserves}
use rollforward.Runtime.Action.Success.{OnSuccess, OnSuccess-kept}
use rollforward.Runtime.Plan.{set_baseline, set_present_baseline, set_deleted_baseline}
use rollforward.Runtime.Publish.{bump, publish_bytes, publish_delete}
use rollforward.Runtime.Publish.Atomic.{Recorded, publish_bytes-Recorded, publish_delete-Recorded}
use rollforward.Runtime.Progress.{SyncRuntime}
use rollforward.Runtime.Stateless.{stateless_rules}
use rollforward.Runtime.Resolve.{remove_conflict, settle_deleted, settle_version}

-- The heads that a baseline acknowledges.
abbrev pub acknowledged_heads : BaselineState → List String
acknowledged_heads (BaselineState.present _ _ heads) = heads
acknowledged_heads (BaselineState.deleted heads) = heads

-- One commit has been added, on top of all heads that the resource had, and the resource's baseline
-- acknowledges that commit alone.
pub record Settled (before : RuntimeState) (key : ResourceKey) (after : RuntimeState) : Type 0 where
  pub commit : Commit
  pub baseline : StoredBaseline
  pub added : after.commits ≡ BTreeMap.insert commit.id commit before.commits
  pub resource : commit.resource ≡ key
  pub on_top : commit.parents ≡ heads before key
  pub stored : BTreeMap.get (encoded key) after.baselines ≡ some baseline
  pub acknowledged : acknowledged_heads baseline.state ≡ commit.id ∷ []

from_list-heads :
    (state : RuntimeState) (key : ResourceKey)
    → BTreeSet.from_list (heads state key) ≡ heads state key
from_list-heads state key = from_list-sorted (heads state key) (heads-IsSorted state key)

module _ (before : RuntimeState) (key : ResourceKey) where
  -- A baseline of the new commit, once it is recorded.
  recorded-Settled :
      (commit : Commit) (state : RuntimeState) (baseline : BaselineState) (id : String)
      → state ≡ record_commit commit (bump before)
      → commit.resource ≡ key
      → commit.parents ≡ BTreeSet.from_list (heads before key)
      → acknowledged_heads baseline ≡ commit.id ∷ []
      → Settled before key (set_baseline key baseline id state)
  unfolding set_baseline record_commit bump
  recorded-Settled commit state baseline id same resource parents heads = record {
    commit = commit;
    baseline = record { key = key; state = baseline; last_operation_id = id };
    added = ap (λ s. s.commits) same;
    resource = resource;
    on_top = parents ∙ from_list-heads before key;
    stored = get-insert_self (encoded key) _ state.baselines;
    acknowledged = heads;
  }

  -- What follows a publication on top of the heads.
  Recorded-Settled :
      {W : Type 0} (client_id : String) (baseline : Commit → BaselineState) (id : String)
      (done : Machine W × Result Commit SyncError)
      → ((commit : Commit) → acknowledged_heads (baseline commit) ≡ commit.id ∷ [])
      → Recorded before key (heads before key) client_id done
      → OnSuccess
          (Settled before key)
          (continue (λ commit. modify (set_baseline key (baseline commit) id)) done)
  unfolding continue modify
  Recorded-Settled client_id baseline id (m, ok commit) only (same, resource, parents, _, _) =
      recorded-Settled commit m.state (baseline commit) id same resource parents (only commit)
  Recorded-Settled client_id baseline id (m, err e) only h = tt

  Recorded-from :
      {W : Type 0} (s : RuntimeState) (parents : List String) (client_id : String)
      (done : Machine W × Result Commit SyncError)
      → s ≡ before
      → Recorded s key parents client_id done
      → Recorded before key parents client_id done
  Recorded-from s parents client_id done same h = rw (← same) h

  -- From the state before, an action that settles the resource if it succeeds.
  pub record Settles {W A : Type 0} (action : Action W A) : Type 0 where
    pub at : (m : Machine W) → m.state ≡ before → OnSuccess (Settled before key) (action m)

  Settles-continue :
      {W A B : Type 0} (next : A → Action W B)
      → ((a : A) → Settles (next a))
      → (done : Machine W × Result A SyncError) → done.0.state ≡ before
      → OnSuccess (Settled before key) (continue next done)
  unfolding continue
  Settles-continue next k (m, ok value) same = (k value).at m same
  Settles-continue next k (m, err e) same = tt

  pub Settles-bind :
      {W A B : Type 0} (first : Action W A) (next : A → Action W B)
      → Preserves (λ s. s ≡ before) first
      → ((a : A) → Settles (next a))
      → Settles (first >>= next)
  unfolding ◌>>=◌
  Settles-bind first next h k = record {
    at = λ m same. Settles-continue next k (first m) (h.at m same);
  }

  module _ {W : Type 0} (r : SyncRuntime W) where
    pub Settles-publish_bytes :
        (kind : ResourceKind) (bytes : Bytes) (content_id version id : String)
        → Settles (
            publish_bytes r.adapters r.hashing r.yrs r.codecs r.client_id key kind bytes
              (heads before key)
            >>= (λ commit.
                modify (set_present_baseline key content_id version (commit.id ∷ []) id)))
    unfolding ◌>>=◌ set_present_baseline
    Settles-publish_bytes kind bytes content_id version id = record {
      at = λ m same.
          Recorded-Settled r.client_id
            (λ commit. BaselineState.present content_id version (commit.id ∷ [])) id _ (λ c. refl)
            (Recorded-from {W = W} m.state (heads before key) r.client_id
              (publish_bytes r.adapters r.hashing r.yrs r.codecs r.client_id key kind bytes
                (heads before key) m)
              same
              (publish_bytes-Recorded r.adapters r.hashing r.yrs r.codecs r.client_id key kind bytes
                (heads before key) m));
    }

    pub Settles-publish_delete :
        (id : String)
        → Settles (
            publish_delete r.adapters r.hashing r.yrs r.codecs r.client_id key (heads before key)
            >>= (λ commit. modify (set_deleted_baseline key (commit.id ∷ []) id)))
    unfolding ◌>>=◌ set_deleted_baseline
    Settles-publish_delete id = record {
      at = λ m same.
          Recorded-Settled r.client_id (λ commit. BaselineState.deleted (commit.id ∷ [])) id _
            (λ c. refl)
            (Recorded-from {W = W} m.state (heads before key) r.client_id
              (publish_delete r.adapters r.hashing r.yrs r.codecs r.client_id key (heads before key)
                m)
              same
              (publish_delete-Recorded r.adapters r.hashing r.yrs r.codecs r.client_id key
                (heads before key) m));
    }

    pub Settles-settle_deleted :
        (local : ReplicaState) (absent : String) (reason : LocalApplyResult → String) (id : String)
        → Settles (settle_deleted r key local absent reason (heads before key) id)
    unfolding settle_deleted
    Settles-settle_deleted local absent reason id =
        search (Settles-bind, stateless_rules, Settles-publish_delete) depth 20

    pub Settles-settle_version :
        (local : ReplicaState) (commit_id : String) (change : ResourceChange) (absent : String)
        (reason : LocalApplyResult → String) (id : String)
        → Settles (settle_version r key local commit_id change absent reason (heads before key) id)
    unfolding settle_version
    Settles-settle_version local commit_id change absent reason id =
        search (Settles-bind, stateless_rules, Settles-publish_bytes) depth 20

  -- What follows, and changes neither the commits nor the baselines.
  followed :
      {W A B : Type 0} (next : A → Action W B)
      → ((a : A) → Preserves (Settled before key) (next a))
      → (done : Machine W × Result A SyncError) → OnSuccess (Settled before key) done
      → OnSuccess (Settled before key) (continue next done)
  unfolding continue
  followed next k (m, ok value) h =
      OnSuccess-kept (Settled before key) (next value m) ((k value).at m h)
  followed next k (m, err e) h = tt

  pub Settles-then :
      {W A B : Type 0} (first : Action W A) (next : A → Action W B)
      → Settles first
      → ((a : A) → Preserves (Settled before key) (next a))
      → Settles (first >>= next)
  unfolding ◌>>=◌
  Settles-then first next h k = record { at = λ m same. followed next k (first m) (h.at m same) }

  pub remove_conflict-Settled :
      (id : String) (s : RuntimeState)
      → Settled before key s
      → Settled before key (remove_conflict id s)
  unfolding remove_conflict
  remove_conflict-Settled id s h = record {
    commit = h.commit;
    baseline = h.baseline;
    added = h.added;
    resource = h.resource;
    on_top = h.on_top;
    stored = h.stored;
    acknowledged = h.acknowledged;
  }

  pub Settles-if :
      {W A : Type 0} (b : Bool) (first second : Action W A)
      → Settles first
      → Settles second
      → Settles (if b then first else second)
  Settles-if true first second h k = h
  Settles-if false first second h k = k

  pub Settles-outcome :
      {W : Type 0} {A : Type 0} (e : SyncError) → Settles {W = W} {A = A} (outcome (err e))
  unfolding outcome
  Settles-outcome e = record { at = λ m same. tt }
