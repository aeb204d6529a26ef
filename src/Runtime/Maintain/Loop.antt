-- ===== src/Runtime/Maintain/Loop.antt =====
-- The first loop of `maintain` (src/runtime.rs): what it marks as obsolete may be given up.
use mathlib.Core.List.{append_assoc}
use rollforward.Prelude.{
  ℕ, String, true, ◌≡◌, ◌⊎◌, inl, inr, refl, sym, ◌∙◌, ap, length, List, [], ◌∷◌, ◌++◌, arith,
  list_eq, nat_eq, list_ord, nat_ord,
}
use rollforward.Collections.BTreeMap
use rollforward.Collections.BTreeMap.Laws.{get-insert, get-remove_ne}
use rollforward.Errors.{Result, ok, err, SyncError}
use rollforward.Types.{ResourceKey, ResourceAck}
use rollforward.Runtime.State.{RuntimeState, record_commit, remote_keys}
use rollforward.Runtime.Action.{Machine, ◌>>=◌, return, continue, call}
use rollforward.Runtime.Action.Steps.{continue-cases}
use rollforward.Runtime.Action.Yields.{OnValue}
use rollforward.Runtime.Refresh.Grows.{recorded}
use rollforward.Runtime.Progress.{SyncRuntime}
use rollforward.Runtime.Maintain.{Maintenance, no_report, maintain_key, maintain_keys}
use rollforward.Runtime.Maintain.Sweep.{remove_commits}
use rollforward.Runtime.Maintain.Retained.{AllOf, Marked, Reclaimable, maintain_key-Marked}
use rollforward.Runtime.Additive.{Additive}
use rollforward.Runtime.Refresh.{refresh_remote}
use rollforward.Runtime.Additive.Maintaining.{Removes, Preserves-maintain_key}

-- The commits of one state are all recorded in another.
abbrev pub Extends : RuntimeState → RuntimeState → Type 0
Extends before s = (i : String) → recorded i before ≡ true → recorded i s ≡ true

pub Extends-Additive : (before : RuntimeState) → Additive (Extends before)
Extends-Additive before = record {
  recorded = λ commit s h i e.
      unfold record_commit in ground (arith, get-insert commit.id i commit s.commits, h i e);
  elsewhere = λ s t same h i e. rw same (h i e);
}

-- Still recorded, or lost.
abbrev pub Accounted : (String → Type 0) → String → RuntimeState → Type 0
Accounted Lost id s = (recorded id s ≡ true) ⊎ Lost id

module _ (Lost : String → Type 0) (id : String) where
  pub Accounted-Additive : Additive (Accounted Lost id)
  Accounted-Additive = record {
    recorded = λ commit s h. elim h [
      | inl r ↦
          inl (unfold record_commit in ground (arith, get-insert commit.id id commit s.commits, r))
      | inr g ↦ inr g
    ];
    elsewhere = λ s t same h. elim h [ inl r ↦ inl (rw same r) | inr g ↦ inr g ];
  }

  remove-Accounted :
      (i : String) (s : RuntimeState)
      → Lost i
      → Accounted Lost id s
      → Accounted Lost id (record s { commits = BTreeMap.remove i s.commits })
  remove-Accounted i s g (inr h) = inr h
  remove-Accounted i s g (inl r) = elim (list_eq.dec i id) [
    | yes e ↦ inr (rw (← e) g)
    | no ne ↦ inl (rw (get-remove_ne i id s.commits ne) r)
  ]

  pub AllOf-Removes : (ids : List String) → AllOf Lost ids → Removes (Accounted Lost id) ids
  unfolding remove_commits
  AllOf-Removes [] h s a = a
  AllOf-Removes (i ∷ ids) (g, h) s a =
      AllOf-Removes ids h (record s { commits = BTreeMap.remove i s.commits })
        (remove-Accounted i s g a)

module _ {W : Type 0} (r : SyncRuntime W) (scopes : List String) (n : ℕ) (start : Machine W) where
  -- The resources that are looked at, and the loop's first variables.
  abbrev pub keys_of : Machine W → List ResourceKey
  keys_of refreshed = remote_keys refreshed.state scopes

  abbrev pub begun : List ResourceKey → Maintenance
  begun keys = record {
    report = record no_report { resources = length keys };
    obsolete_by_scope = [];
  }

  -- Where the loop is: the resources that it has been through and those that are left, in a state with
  -- all that was recorded at the start.
  pub record At (acks : List ResourceAck) (left : List ResourceKey) (acc : Maintenance)
      (m : Machine W) : Type 0 where
    pub refreshed : Machine W
    pub asked : Machine W
    pub passed : List ResourceKey
    pub refreshes : refresh_remote r.adapters [] start ≡ (refreshed, ok tt)
    pub lists :
        call (r.adapters.list_acknowledgements (keys_of refreshed)) refreshed ≡ (asked, ok acks)
    pub order : keys_of refreshed ≡ passed ++ left
    pub reaches : maintain_keys r n acks passed (begun (keys_of refreshed)) asked ≡ (m, ok acc)
    pub complete : Extends start.state m.state

  -- A commit that may be given up, as the loop finds its resource when it comes to it, by the
  -- acknowledgements that the remote has listed.
  pub record GivenUp (id : String) : Type 0 where
    pub acks : List ResourceAck
    pub key : ResourceKey
    pub later : List ResourceKey
    pub acc : Maintenance
    pub found : Machine W
    pub at : At acks (key ∷ later) acc found
    pub reclaimable : Reclaimable n acks r.client_id found.state key id

  continue-return :
      {A : Type 0} (done : Machine W × Result A SyncError) → continue return done ≡ done
  unfolding continue return
  continue-return (m, ok value) = refl
  continue-return (m, err e) = refl

  module _ (acks : List ResourceAck) where
    one_more :
        (key : ResourceKey) (keys : List ResourceKey)
        → ((acc : Maintenance) (m : Machine W)
            → maintain_keys r n acks (keys ++ (key ∷ [])) acc m
              ≡ continue (maintain_key r n acks key) (maintain_keys r n acks keys acc m))
        → (done : Machine W × Result Maintenance SyncError)
        → continue (maintain_keys r n acks (keys ++ (key ∷ []))) done
          ≡ continue (maintain_key r n acks key) (continue (maintain_keys r n acks keys) done)
    unfolding continue
    one_more key keys h (m, ok acc) = h acc m
    one_more key keys h (m, err e) = refl

    -- Of one resource more, after the others.
    maintain_keys-append :
        (key : ResourceKey) (keys : List ResourceKey) (acc : Maintenance) (m : Machine W)
        → maintain_keys r n acks (keys ++ (key ∷ [])) acc m
          ≡ continue (maintain_key r n acks key) (maintain_keys r n acks keys acc m)
    unfolding maintain_keys ◌>>=◌ return continue
    maintain_keys-append key [] acc m = continue-return (maintain_key r n acks key acc m)
    maintain_keys-append key (k ∷ keys) acc m =
        one_more key keys (maintain_keys-append key keys) (maintain_key r n acks k acc m)

    At-next :
        (key : ResourceKey) (keys : List ResourceKey) (acc acc' : Maintenance) (m m' : Machine W)
        → At acks (key ∷ keys) acc m
        → maintain_key r n acks key acc m ≡ (m', ok acc')
        → At acks keys acc' m'
    unfolding continue
    At-next key keys acc acc' m m' at e = record {
      refreshed = at.refreshed;
      asked = at.asked;
      passed = at.passed ++ (key ∷ []);
      refreshes = at.refreshes;
      lists = at.lists;
      order = at.order ∙ sym (append_assoc at.passed (key ∷ []) keys);
      reaches =
          maintain_keys-append key at.passed (begun (keys_of at.refreshed)) at.asked
          ∙ (ap (continue (maintain_key r n acks key)) at.reaches ∙ e);
      complete = rw e at (
          (Preserves-maintain_key r (Extends-Additive start.state) n acks key acc).at m
            at.complete);
    }

    -- The loop marks only commits that may be given up.
    pub maintain_keys-Marked :
        (keys : List ResourceKey) (acc : Maintenance) (m : Machine W)
        → Marked GivenUp acc
        → At acks keys acc m
        → OnValue (Marked GivenUp) (maintain_keys r n acks keys acc m)
    unfolding maintain_keys return ◌>>=◌
    maintain_keys-Marked [] acc m held at = held
    maintain_keys-Marked (key ∷ keys) acc m held at =
        let marked : OnValue (Marked GivenUp) (maintain_key r n acks key acc m) =
          maintain_key-Marked r n acks key acc GivenUp held m (λ id h. record {
            acks = acks;
            key = key;
            later = keys;
            acc = acc;
            found = m;
            at = at;
            reclaimable = h;
          }) in
        continue-cases (OnValue (Marked GivenUp)) (maintain_keys r n acks keys)
          (maintain_key r n acks key acc m) (λ m' e failed. tt)
          (λ m' acc' done.
            maintain_keys-Marked keys acc' m' (rw done at marked)
              (At-next key keys acc acc' m m' at done))
