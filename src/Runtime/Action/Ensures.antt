-- ===== src/Runtime/Action/Ensures.antt =====
-- What an action that cannot fail brings about.
use rollforward.Errors.{Result, ok, err, SyncError}
use rollforward.Runtime.State.{RuntimeState}
use rollforward.Runtime.Action.{
  Action, Machine, Progress, ◌>>=◌, modify, return, update_run, notify, continue,
}
use rollforward.Runtime.Action.Preserves.{Preserves}

-- The action succeeded, in a state of this kind.
abbrev pub Succeeded :
    {W A : Type 0} → (RuntimeState → Type 0) → Machine W × Result A SyncError → Type 0
Succeeded Q (m, ok value) = Q m.state
Succeeded Q (m, err e) = ⊥

pub record Ensures {W A : Type 0} (Q : RuntimeState → Type 0) (action : Action W A) : Type 0 where
  pub at : (m : Machine W) → Succeeded Q (action m)

-- What holds after the action, however it ends.
pub record Leaves {W A : Type 0} (Q : RuntimeState → Type 0) (action : Action W A) : Type 0 where
  pub at : (m : Machine W) → Q (action m).0.state

-- The action cannot fail.
abbrev pub Infallible : {W A : Type 0} → Action W A → Type 0
Infallible action = Ensures (λ s. Unit) action

module _ {W : Type 0} where
  pub Infallible-return : {A : Type 0} (a : A) → Infallible {W = W} (return a)
  unfolding return
  Infallible-return a = record { at = λ m. tt }

  pub Infallible-update_run :
      (change : Progress → Progress) → Infallible {W = W} (update_run change)
  unfolding update_run
  Infallible-update_run change = record { at = λ m. tt }

  pub Infallible-notify : (f : W → W) → Infallible (notify f)
  unfolding notify
  Infallible-notify f = record { at = λ m. tt }

  pub Ensures-modify :
      {Q : RuntimeState → Type 0} (change : RuntimeState → RuntimeState)
      → ((s : RuntimeState) → Q (change s))
      → Ensures {W = W} Q (modify change)
  unfolding modify
  Ensures-modify change k = record { at = λ m. k m.state }

Succeeded-kept :
    {W A : Type 0} (Q : RuntimeState → Type 0) (done : Machine W × Result A SyncError)
    → Succeeded (λ s. Unit) done
    → Q done.0.state
    → Succeeded Q done
Succeeded-kept Q (m, ok value) s h = h
Succeeded-kept Q (m, err e) s h = elim s [ ]

module _ {W A B : Type 0} {Q : RuntimeState → Type 0} where
  Ensures-after-continue :
      (next : A → Action W B) (done : Machine W × Result A SyncError)
      → ((a : A) → Ensures Q (next a))
      → Succeeded (λ s. Unit) done
      → Succeeded Q (continue next done)
  unfolding continue
  Ensures-after-continue next (m, ok value) k h = (k value).at m
  Ensures-after-continue next (m, err e) k h = elim h [ ]

  -- The second action brings it about.
  pub Ensures-after :
      (first : Action W A) (next : A → Action W B)
      → Infallible first
      → ((a : A) → Ensures Q (next a))
      → Ensures Q (first >>= next)
  unfolding ◌>>=◌
  Ensures-after first next h k = record {
    at = λ m. Ensures-after-continue next (first m) k (h.at m);
  }

  Ensures-then-continue :
      (next : A → Action W B) (done : Machine W × Result A SyncError)
      → ((a : A) → Infallible (next a))
      → ((a : A) → Preserves Q (next a))
      → Succeeded Q done
      → Succeeded Q (continue next done)
  unfolding continue
  Ensures-then-continue next (m, ok value) i k h =
      Succeeded-kept Q (next value m) ((i value).at m) ((k value).at m h)
  Ensures-then-continue next (m, err e) i k h = elim h [ ]

  -- The first action brings it about, and the second keeps it.
  pub Ensures-then :
      (first : Action W A) (next : A → Action W B)
      → Ensures Q first
      → ((a : A) → Infallible (next a))
      → ((a : A) → Preserves Q (next a))
      → Ensures Q (first >>= next)
  unfolding ◌>>=◌
  Ensures-then first next h i k = record {
    at = λ m. Ensures-then-continue next (first m) i k (h.at m);
  }

  Leaves-after-continue :
      (next : A → Action W B) (done : Machine W × Result A SyncError)
      → ((a : A) → Leaves Q (next a))
      → Succeeded (λ s. Unit) done
      → Q (continue next done).0.state
  unfolding continue
  Leaves-after-continue next (m, ok value) k h = (k value).at m
  Leaves-after-continue next (m, err e) k h = elim h [ ]

  pub Leaves-after :
      (first : Action W A) (next : A → Action W B)
      → Infallible first
      → ((a : A) → Leaves Q (next a))
      → Leaves Q (first >>= next)
  unfolding ◌>>=◌
  Leaves-after first next h k = record { at = λ m. Leaves-after-continue next (first m) k (h.at m) }

  Leaves-then-continue :
      (next : A → Action W B) (done : Machine W × Result A SyncError)
      → ((a : A) → Preserves Q (next a))
      → Succeeded Q done
      → Q (continue next done).0.state
  unfolding continue
  Leaves-then-continue next (m, ok value) k h = (k value).at m h
  Leaves-then-continue next (m, err e) k h = elim h [ ]

  pub Leaves-then :
      (first : Action W A) (next : A → Action W B)
      → Ensures Q first
      → ((a : A) → Preserves Q (next a))
      → Leaves Q (first >>= next)
  unfolding ◌>>=◌
  Leaves-then first next h k = record { at = λ m. Leaves-then-continue next (first m) k (h.at m) }

pub ruleset infallible_rules =
    (Infallible-return, Infallible-update_run, Infallible-notify, Ensures-modify, Ensures-after)
