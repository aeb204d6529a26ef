-- ===== src/Runtime/Action/Success.antt =====
-- What holds of the state where an action succeeds.
use rollforward.Prelude.{◌≡◌, refl, Bool, true, false, if◌then◌else◌}
use rollforward.Errors.{Result, ok, err, SyncError}
use rollforward.Runtime.State.{RuntimeState}
use rollforward.Runtime.Action.{Action, Machine, ◌>>=◌, continue, modify}
use rollforward.Runtime.Action.Preserves.{Preserves}

-- What holds of the state on success.
abbrev pub OnSuccess :
    {W A : Type 0} → (RuntimeState → Type 0) → Machine W × Result A SyncError → Type 0
OnSuccess Q (m, ok value) = Q m.state
OnSuccess Q (m, err e) = Unit

module _ {W A B : Type 0} (Q : RuntimeState → Type 0) where
  pub OnSuccess-continue :
      (next : A → Action W B) (done : Machine W × Result A SyncError)
      → ((a : A) (m : Machine W) → OnSuccess Q (next a m))
      → OnSuccess Q (continue next done)
  unfolding continue
  OnSuccess-continue next (m, ok value) h = h value m
  OnSuccess-continue next (m, err e) h = tt

  pub OnSuccess-bind :
      (first : Action W A) (next : A → Action W B) (m : Machine W)
      → ((a : A) (n : Machine W) → OnSuccess Q (next a n))
      → OnSuccess Q ((first >>= next) m)
  unfolding ◌>>=◌
  OnSuccess-bind first next m h = OnSuccess-continue next (first m) h

pub OnSuccess-kept :
    {W A : Type 0} (Q : RuntimeState → Type 0) (done : Machine W × Result A SyncError)
    → Q done.0.state
    → OnSuccess Q done
OnSuccess-kept Q (m, ok value) h = h
OnSuccess-kept Q (m, err e) h = tt

pub OnSuccess-map :
    {W A : Type 0} (Q T : RuntimeState → Type 0) (done : Machine W × Result A SyncError)
    → ((s : RuntimeState) → Q s → T s)
    → OnSuccess Q done
    → OnSuccess T done
OnSuccess-map Q T (m, ok value) f h = f m.state h
OnSuccess-map Q T (m, err e) f h = tt

pub if-OnSuccess :
    {W : Type 0} (Q : RuntimeState → Type 0) (b : Bool) (first second : Action W Unit)
    (m : Machine W)
    → (b ≡ true → OnSuccess Q (first m))
    → (b ≡ false → OnSuccess Q (second m))
    → OnSuccess Q ((if b then first else second) m)
if-OnSuccess Q true first second m h k = h refl
if-OnSuccess Q false first second m h k = k refl

-- What an action brings about where it succeeds.
pub record Achieves {W A : Type 0} (Q : RuntimeState → Type 0) (action : Action W A) : Type 0 where
  pub at : (m : Machine W) → OnSuccess Q (action m)

pub Achieves-modify :
    {W : Type 0} {Q : RuntimeState → Type 0} (change : RuntimeState → RuntimeState)
    → ((s : RuntimeState) → Q (change s))
    → Achieves {W = W} Q (modify change)
unfolding modify
Achieves-modify change k = record { at = λ m. k m.state }

module _ {W A B : Type 0} {Q : RuntimeState → Type 0} where
  -- The second action brings it about.
  pub Achieves-after :
      (first : Action W A) (next : A → Action W B)
      → ((a : A) → Achieves Q (next a))
      → Achieves Q (first >>= next)
  Achieves-after first next k = record { at = λ m. OnSuccess-bind Q first next m (λ a. (k a).at) }

  Achieves-then-continue :
      (next : A → Action W B) (done : Machine W × Result A SyncError)
      → ((a : A) → Preserves Q (next a))
      → OnSuccess Q done
      → OnSuccess Q (continue next done)
  unfolding continue
  Achieves-then-continue next (m, ok value) k h = OnSuccess-kept Q (next value m) ((k value).at m h)
  Achieves-then-continue next (m, err e) k h = tt

  -- The first action brings it about, and the second keeps it.
  pub Achieves-then :
      (first : Action W A) (next : A → Action W B)
      → Achieves Q first
      → ((a : A) → Preserves Q (next a))
      → Achieves Q (first >>= next)
  unfolding ◌>>=◌
  Achieves-then first next h k = record {
    at = λ m. Achieves-then-continue next (first m) k (h.at m);
  }
