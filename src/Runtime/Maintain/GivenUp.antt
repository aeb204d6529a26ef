-- ===== src/Runtime/Maintain/GivenUp.antt =====
-- What `maintain` (src/runtime.rs) does to the recorded commits.
use rollforward.Prelude.{
  ℕ, zero, suc, String, true, ◌≡◌, inl, refl, sym, ap, List, [], ◌∷◌, list_eq, nat_eq, list_ord,
  nat_ord,
}
use rollforward.Errors.{Result, ok, err, SyncError}
use rollforward.Types.{ResourceKey, ResourceAck, MaintenanceRequest, V2MaintenanceReport}
use rollforward.Runtime.State.{RuntimeState}
use rollforward.Runtime.Action.{Action, Machine, ◌>>=◌, return, continue, call, get_state}
use rollforward.Runtime.Action.Steps.{continue-cases}
use rollforward.Runtime.Action.Preserves.{Preserves, Preserves-bind}
use rollforward.Runtime.Action.Yields.{OnValue}
use rollforward.Runtime.Refresh.Grows.{recorded}
use rollforward.Runtime.Progress.{SyncRuntime, save}
use rollforward.Runtime.Maintain.{Maintenance, maintain_keys}
use rollforward.Runtime.Maintain.Sweep.{
  sweep_scopes, sweep_packs, maintain_scopes, maintain_retaining, maintain,
}
use rollforward.Runtime.Maintain.Retained.{AllOf, Marked}
use rollforward.Runtime.Additive.{Additive, growing, additive_rules, Preserves-refresh_remote}
use rollforward.Runtime.Refresh.{refresh_remote}
use rollforward.Runtime.Additive.Maintaining.{
  Each, Removes, Preserves-maintain_keys, Preserves-sweep_scopes, Preserves-sweep_packs,
}
use rollforward.Runtime.Maintain.Loop.{
  Extends, Extends-Additive, Accounted, Accounted-Additive, AllOf-Removes, At, GivenUp, keys_of,
  begun, maintain_keys-Marked,
}

module _ {W : Type 0} (r : SyncRuntime W) (scopes : List String) (n : ℕ) (start : Machine W) where
  abbrev Lost : String → Type 0
  Lost = GivenUp r scopes n start

  module _ (id : String) where
    abbrev Kept : RuntimeState → Type 0
    Kept = Accounted Lost id

    Kept-Additive : Additive Kept
    Kept-Additive = Accounted-Additive Lost id

    -- After the loop, the marked commits are removed.
    sweep : V2MaintenanceReport → Action W V2MaintenanceReport
    sweep report = sweep_packs r report >>= (λ done. save r >>= (λ _. return done))

    Preserves-sweep : (report : V2MaintenanceReport) → Preserves Kept (sweep report)
    unfolding sweep
    Preserves-sweep report = search (additive_rules, Preserves-sweep_packs, Kept-Additive) depth 20

    Each-Removes :
        (scopes : List (String × List String))
        → Each (AllOf Lost) scopes
        → Each (Removes Kept) scopes
    Each-Removes [] h = tt
    Each-Removes ((scope, ids) ∷ scopes) (h, k) =
        (AllOf-Removes Lost id ids h, Each-Removes scopes k)

    swept :
        (acc : Maintenance)
        → Marked Lost acc
        → Preserves Kept (sweep_scopes r acc.obsolete_by_scope acc.report >>= sweep)
    swept acc h =
        Preserves-bind _ sweep
          (Preserves-sweep_scopes r Kept-Additive acc.obsolete_by_scope acc.report
            (Each-Removes acc.obsolete_by_scope h))
          Preserves-sweep

    looped :
        (done : Machine W × Result Maintenance SyncError)
        → OnValue (Marked Lost) done
        → Kept done.0.state
        → Kept
            (continue
              (λ acc. sweep_scopes r acc.obsolete_by_scope acc.report >>= sweep)
              done).0.state
    unfolding continue
    looped (m, ok acc) h k = (swept acc h).at m k
    looped (m, err e) h k = k

    looped_from :
        (acks : List ResourceAck) (acc : Maintenance) (keys : List ResourceKey) (m : Machine W)
        → Marked Lost acc
        → At r scopes n start acks keys acc m
        → Kept m.state
        → Kept
            ((maintain_keys r n acks keys acc
                >>= (λ a. sweep_scopes r a.obsolete_by_scope a.report >>= sweep))
              m).0.state
    unfolding ◌>>=◌
    looped_from acks acc keys m held at h =
        looped (maintain_keys r n acks keys acc m)
          (maintain_keys-Marked r scopes n start acks keys acc m held at)
          ((Preserves-maintain_keys r Kept-Additive n acks keys acc).at m h)

    -- What follows the refresh.
    listed : Action W V2MaintenanceReport
    unfolding ◌>>=◌
    listed m =
        continue
          (λ acks.
            maintain_keys r n acks (keys_of r scopes n start m)
              (begun r scopes n start (keys_of r scopes n start m))
            >>= (λ a. sweep_scopes r a.obsolete_by_scope a.report >>= sweep))
          (call (r.adapters.list_acknowledgements (keys_of r scopes n start m)) m)

    listed-Kept :
        (m : Machine W)
        → refresh_remote r.adapters [] start ≡ (m, ok tt)
        → Extends start.state m.state
        → Kept m.state
        → Kept (listed m).0.state
    unfolding listed call
    listed-Kept m refreshes complete kept =
        continue-cases (λ done. Kept done.0.state)
          (λ acks.
            maintain_keys r n acks (keys_of r scopes n start m)
              (begun r scopes n start (keys_of r scopes n start m))
            >>= (λ a. sweep_scopes r a.obsolete_by_scope a.report >>= sweep))
          (call (r.adapters.list_acknowledgements (keys_of r scopes n start m)) m)
          (λ m' e failed. rw (same_state m' (err e) failed) kept)
          (λ m' acks lists.
            looped_from acks (begun r scopes n start (keys_of r scopes n start m))
              (keys_of r scopes n start m) m' tt
              (record {
                refreshed = m;
                asked = m';
                passed = [];
                refreshes = refreshes;
                lists = lists;
                order = refl;
                reaches = unfold maintain_keys return in refl;
                complete = rw (same_state m' (ok acks) lists) complete;
              })
              (rw (same_state m' (ok acks) lists) kept))
      where
        same_state :
            (m' : Machine W) (outcome : Result (List ResourceAck) SyncError)
            → call (r.adapters.list_acknowledgements (keys_of r scopes n start m)) m ≡ (m', outcome)
            → m'.state ≡ m.state
        same_state m' outcome e = ap (λ done. done.0.state) (sym e)

    maintain_scopes-Kept : Kept start.state → Kept (maintain_scopes r scopes n start).0.state
    unfolding maintain_scopes ◌>>=◌ sweep get_state continue listed
    maintain_scopes-Kept h =
        let refreshing = refresh_remote r.adapters [] start in
        let kept : Kept refreshing.0.state =
          (Preserves-refresh_remote r (growing Kept-Additive) []).at start h in
        let complete : Extends start.state refreshing.0.state =
          (Preserves-refresh_remote r (growing (Extends-Additive start.state)) []).at start
            (λ i e. e) in
        continue-cases (λ done. Kept done.0.state) (λ _. listed) refreshing
          (λ m e failed. rw failed at kept)
          (λ m _ done. listed-Kept m done (rw done at complete) (rw done at kept))

module _ {W : Type 0} (r : SyncRuntime W) where
  maintain_retaining-Accounted :
      (scopes : List String) (n : ℕ) (m : Machine W) (id : String)
      → recorded id m.state ≡ true
      → Accounted (GivenUp r scopes n m) id (maintain_retaining r scopes n m).0.state
  unfolding maintain_retaining return
  maintain_retaining-Accounted scopes zero m id h = inl h
  maintain_retaining-Accounted scopes (suc n) m id h =
      maintain_scopes-Kept r scopes (suc n) m id (inl h)

  -- However a maintenance ends, a recorded commit stays recorded, or it could be given up: the refresh
  -- and the listing of the acknowledgements succeeded, and the loop, in a state with all that was
  -- recorded before, came to the commit's resource and found it with one head, no conflict, no running
  -- operation and more commits than are retained, and no text; every active client had acknowledged its
  -- checkpoint by what was listed; and the commit was neither among the newest, nor the checkpoint, nor
  -- pinned.
  pub maintain-Accounted :
      (request : MaintenanceRequest) (m : Machine W) (id : String)
      → recorded id m.state ≡ true
      → Accounted
          (GivenUp r request.scopes request.history_retention_versions m)
          id
          (maintain r request m).0.state
  unfolding maintain
  maintain-Accounted request m id h =
      maintain_retaining-Accounted request.scopes request.history_retention_versions m id h
