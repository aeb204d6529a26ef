-- ===== src/Runtime/Apply/Ends.antt =====
-- The whole last loop of `execute` (src/runtime.rs), where the store saves.
use rollforward.Prelude.{
  ℕ, ◌+◌, ◌%◌, ◌^◌, String, Bytes, true, ◌≡◌, ◌≢◌, refl, ◌∙◌, ap, List, [], ◌∷◌, arith, length,
  filter, list_ord, nat_ord,
}
use rollforward.Collections.BTreeMap
use rollforward.Collections.BTreeMap.{BTreeMap}
use rollforward.Errors.{Result, ok, err, SyncError}
use rollforward.Types.{ResourceKey, LocalResource, PlanOperation, operation_key, encoded}
use rollforward.Runtime.State.{RuntimeState}
use rollforward.Runtime.Action.{
  Machine, ◌>>=◌, get_state, call, return, outcome, update_run, notify, continue, catch, recover,
  for_each,
}
use rollforward.Runtime.Action.Outcomes.{Stepped}
use rollforward.Runtime.Progress.{SyncRuntime, emit, emit_progress, save, add_failure}
use rollforward.Runtime.Apply.{apply_operation, count_error, apply_one, apply_all}
use rollforward.Runtime.Apply.Accounts.{
  is_applied, books, accounted, Accounted, View, apply_operation-Stepped,
}

-- How many operations the loop counts.
abbrev pub applied_count : List PlanOperation → ℕ
applied_count operations = length (filter is_applied operations)

-- No operation is on the resource of this baseline.
abbrev pub Elsewhere : String → List PlanOperation → Type 0
Elsewhere j [] = Unit
Elsewhere j (operation ∷ operations) =
    (encoded (operation_key operation) ≢ j) × Elsewhere j operations

-- The books after some operations: those of other resources stand, and each that is applied counts.
abbrev pub Kept : List PlanOperation → View → View → Type 0
Kept operations (old, n) (new, k) =
    ((j : String) → Elsewhere j operations → BTreeMap.get j new ≡ BTreeMap.get j old)
    × (k ≡ (n + applied_count operations) % 2 ^ 64)

Kept-eq :
    (operations : List PlanOperation) (before after same : View)
    → same ≡ after
    → Kept operations before after
    → Kept operations before same
Kept-eq operations before after same e h = rw e h

Kept-then :
    (operation : PlanOperation) (operations : List PlanOperation) (before between after : View)
    → Kept (operation ∷ []) before between
    → Kept operations between after
    → Kept (operation ∷ operations) before after
Kept-then operation operations before between after (h, n) (k, l) =
    (λ j elsewhere. k j elsewhere.1 ∙ h j (elsewhere.0, tt), ground (arith, n, l))

module _ {W : Type 0} (r : SyncRuntime W) (run_id : String)
    (local_by_key : BTreeMap ResourceKey LocalResource) (json : RuntimeState → Bytes)
    (encodes : (s : RuntimeState) → r.codecs.state_json s ≡ ok (json s))
    (stores : (bytes : Bytes) (w : W) → (r.adapters.save_runtime_state bytes w).1 ≡ ok tt) where
  save-ends : (m : Machine W) → ((save r m).1 ≡ ok tt) × (books (save r m).0 ≡ books m)
  unfolding save ◌>>=◌ continue get_state outcome call
  save-ends m = rw (encodes m.state, stores (json m.state) m.world) (refl, refl)

  -- A caught error is counted.
  caught :
      (operation : PlanOperation) (m : Machine W) (done : Machine W × Result Unit SyncError)
      → Stepped books (Accounted (operation_key operation)) m done
      → ((recover (count_error r run_id local_by_key operation) done).1 ≡ ok tt)
        × Accounted
            (operation_key operation)
            (books m)
            (books (recover (count_error r run_id local_by_key operation) done).0)
  unfolding recover count_error add_failure emit_progress emit ◌>>=◌ continue notify update_run
  caught operation m (n, ok value) h = (refl, h)
  caught operation m (n, err e) h =
      let counted : accounted n.run ≡ accounted m.run = ap (λ v. v.1) h in
      (refl, (λ j ne. ap (λ v. BTreeMap.get j v.0) h, omega (arith, counted)))

  -- The end of one operation, once its own error is caught.
  Ended : PlanOperation → Machine W → Machine W × Result Unit SyncError → Type 0
  Ended operation m done = (done.1 ≡ ok tt) × Kept (operation ∷ []) (books m) (books done.0)

  Ended-Accounted :
      (operation : PlanOperation) (m : Machine W) (done : Machine W × Result Unit SyncError)
      → is_applied operation ≡ true
      → (done.1 ≡ ok tt) × Accounted (operation_key operation) (books m) (books done.0)
      → Ended operation m done
  unfolding Ended
  Ended-Accounted operation m done h (fine, (others, counted)) =
      (fine, (λ j elsewhere. others j elsewhere.0, rw h (omega (arith, counted))))

  caught_applied :
      (operation : PlanOperation) (m : Machine W)
      → is_applied operation ≡ true
      → Ended operation m (
          catch
            (apply_operation r run_id local_by_key operation)
            (count_error r run_id local_by_key operation)
            m)
  unfolding catch
  caught_applied operation m h = Ended-Accounted operation m _ h (
      caught operation m (apply_operation r run_id local_by_key operation m)
        (apply_operation-Stepped r run_id local_by_key operation m h))

  caught-Ended :
      (operation : PlanOperation) (m : Machine W)
      → Ended operation m (
          catch
            (apply_operation r run_id local_by_key operation)
            (count_error r run_id local_by_key operation)
            m)
  unfolding catch recover apply_operation return Ended
  caught-Ended (PlanOperation.noop key) m = caught_applied (PlanOperation.noop key) m refl
  caught-Ended (PlanOperation.establish_baseline key local heads) m =
      caught_applied (PlanOperation.establish_baseline key local heads) m refl
  caught-Ended (PlanOperation.establish_deleted_baseline key heads) m =
      caught_applied (PlanOperation.establish_deleted_baseline key heads) m refl
  caught-Ended (PlanOperation.download key remote) m =
      caught_applied (PlanOperation.download key remote) m refl
  caught-Ended (PlanOperation.apply_delete key local heads) m =
      caught_applied (PlanOperation.apply_delete key local heads) m refl
  caught-Ended (PlanOperation.upload key local) m = (refl, (λ j n. refl, omega arith))
  caught-Ended (PlanOperation.publish_delete key) m = (refl, (λ j n. refl, omega arith))
  caught-Ended (PlanOperation.conflict c) m = (refl, (λ j n. refl, omega arith))

  saved :
      (operation : PlanOperation) (m : Machine W) (done : Machine W × Result Unit SyncError)
      → Ended operation m done
      → Ended operation m (continue (λ _. save r) done)
  unfolding Ended continue
  saved operation m (n, ok value) (fine, kept) =
      let (well, same) = save-ends n in
      (well, Kept-eq (operation ∷ []) (books m) (books n) (books (save r n).0) same kept)
  saved operation m (n, err e) (fine, kept) = absurd (ground (arith, fine))

  apply_one-Ended :
      (operation : PlanOperation) (m : Machine W)
      → Ended operation m (apply_one r run_id local_by_key operation m)
  unfolding apply_one ◌>>=◌
  apply_one-Ended operation m = saved operation m _ (caught-Ended operation m)

  apply_all-rest :
      (operation : PlanOperation) (operations : List PlanOperation) (m : Machine W)
      (done : Machine W × Result Unit SyncError)
      → ((n : Machine W)
          → let rest = for_each (apply_one r run_id local_by_key) operations n in
            (rest.1 ≡ ok tt) × Kept operations (books n) (books rest.0))
      → Ended operation m done
      → let rest = continue (λ _. for_each (apply_one r run_id local_by_key) operations) done in
        (rest.1 ≡ ok tt) × Kept (operation ∷ operations) (books m) (books rest.0)
  unfolding Ended continue
  apply_all-rest operation operations m (n, ok value) go (fine, kept) =
      let (well, rest) = go n in
      (well, Kept-then operation operations (books m) (books n) _ kept rest)
  apply_all-rest operation operations m (n, err e) go (fine, kept) = absurd (ground (arith, fine))

  apply_each-ends :
      (operations : List PlanOperation) (m : Machine W)
      → let done = for_each (apply_one r run_id local_by_key) operations m in
        (done.1 ≡ ok tt) × Kept operations (books m) (books done.0)
  unfolding for_each return ◌>>=◌
  apply_each-ends [] m = (refl, (λ j n. refl, omega arith))
  apply_each-ends (operation ∷ operations) m =
      apply_all-rest operation operations m _ (apply_each-ends operations)
        (apply_one-Ended operation m)

  -- Where the store saves, the loop over the plan gets to its end whatever the other adapters answer.
  -- The report has then counted every operation that is applied there exactly once, modulo 2 ^ 64, as
  -- unchanged, downloaded, deleted or failed, and the baselines of all other resources are the same.
  pub apply_all-ends :
      (operations : List PlanOperation) (m : Machine W)
      → ((apply_all r run_id local_by_key operations m).1 ≡ ok tt)
        × Kept operations (books m) (books (apply_all r run_id local_by_key operations m).0)
  unfolding apply_all
  apply_all-ends = apply_each-ends
