-- ===== src/Runtime/Action/Yields.antt =====
-- What holds of the value that an action returns, where it returns one.
use rollforward.Prelude.{◌≡◌, refl, Bool, true, false, if◌then◌else◌}
use rollforward.Errors.{Result, ok, err, SyncError}
use rollforward.Runtime.Action.{Action, Machine, ◌>>=◌, return, continue}

abbrev pub OnValue : {W A : Type 0} → (A → Type 0) → Machine W × Result A SyncError → Type 0
OnValue V (m, ok value) = V value
OnValue V (m, err e) = Unit

pub record Yields {W A : Type 0} (V : A → Type 0) (action : Action W A) : Type 0 where
  pub at : (m : Machine W) → OnValue V (action m)

module _ {W A : Type 0} {V : A → Type 0} where
  pub Yields-return : (a : A) → V a → Yields {W = W} V (return a)
  unfolding return
  Yields-return a h = record { at = λ m. h }

module _ {W A B : Type 0} {V : B → Type 0} where
  Yields-continue :
      (next : A → Action W B)
      → ((a : A) → Yields V (next a))
      → (done : Machine W × Result A SyncError) → OnValue V (continue next done)
  unfolding continue
  Yields-continue next k (m, ok value) = (k value).at m
  Yields-continue next k (m, err e) = tt

  pub Yields-bind :
      (first : Action W A) (next : A → Action W B)
      → ((a : A) → Yields V (next a))
      → Yields V (first >>= next)
  unfolding ◌>>=◌
  Yields-bind first next k = record { at = λ m. Yields-continue next k (first m) }

-- A choice at one machine.
pub if-OnValue :
    {W A : Type 0} (V : A → Type 0) (b : Bool) (first second : Action W A) (m : Machine W)
    → (b ≡ true → OnValue V (first m))
    → (b ≡ false → OnValue V (second m))
    → OnValue V ((if b then first else second) m)
if-OnValue V true first second m h k = h refl
if-OnValue V false first second m h k = k refl
