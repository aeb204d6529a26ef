-- ===== src/Runtime/Action/Outcomes.antt =====
-- What an action does to a part of the machine that can be seen: nothing, or one step that an error
-- does not take.
use rollforward.Prelude.{◌≡◌, refl, ◌∙◌, Bool, true, false, if◌then◌else◌}
use rollforward.Errors.{Result, ok, err, SyncError}
use rollforward.Runtime.Action.{
  Action, Call, Machine, ◌>>=◌, get_state, call, return, outcome, continue, modify,
}
use rollforward.Runtime.State.{RuntimeState}

-- The view is the same after the action, whatever its outcome.
pub record Quiet {W A X : Type 0} (view : Machine W → X) (action : Action W A) : Type 0 where
  pub at : (m : Machine W) → view (action m).0 ≡ view m

-- On success the view has taken a step, and on an error it is the same.
abbrev pub Stepped :
    {W A X : Type 0}
    → (Machine W → X)
    → (X → X → Type 0)
    → Machine W
    → Machine W × Result A SyncError
    → Type 0
Stepped view step before (m, ok value) = step (view before) (view m)
Stepped view step before (m, err e) = view m ≡ view before

pub record Steps {W A X : Type 0} (view : Machine W → X) (step : X → X → Type 0)
    (action : Action W A) : Type 0 where
  pub at : (m : Machine W) → Stepped view step m (action m)

-- A view of the state's baselines and the like, and of the run, but not of the world.
pub record Worldless {W X : Type 0} (view : Machine W → X) : Type 0 where
  pub same : (m : Machine W) (w : W) → view (record m { world = w }) ≡ view m

module _ {W A X : Type 0} {view : Machine W → X} where
  pub Quiet-return : (a : A) → Quiet view (return a)
  unfolding return
  Quiet-return a = record { at = λ m. refl }

  pub Quiet-outcome : (r : Result A SyncError) → Quiet view (outcome r)
  unfolding outcome
  Quiet-outcome r = record { at = λ m. refl }

  pub Quiet-call : Worldless view → (c : Call W A) → Quiet view (call c)
  unfolding call
  Quiet-call blind c = record { at = λ m. blind.same m (c m.world).0 }

  pub Quiet-if :
      (b : Bool) (first second : Action W A)
      → Quiet view first
      → Quiet view second
      → Quiet view (if b then first else second)
  Quiet-if true first second h k = h
  Quiet-if false first second h k = k

module _ {W X : Type 0} {view : Machine W → X} where
  pub Quiet-get_state : Quiet view get_state
  unfolding get_state
  Quiet-get_state = record { at = λ m. refl }

  pub Quiet-modify :
      (change : RuntimeState → RuntimeState)
      → ((m : Machine W) → view (record m { state = change m.state }) ≡ view m)
      → Quiet view (modify change)
  unfolding modify
  Quiet-modify change h = record { at = h }

Stepped-from :
    {W A X : Type 0} (view : Machine W → X) (step : X → X → Type 0) (before m : Machine W)
    (done : Machine W × Result A SyncError)
    → view m ≡ view before
    → Stepped view step m done
    → Stepped view step before done
Stepped-from view step before m (n, ok value) same h = rw (← same) h
Stepped-from view step before m (n, err e) same h = h ∙ same

module _ {W A B X : Type 0} {view : Machine W → X} where
  Quiet-continue :
      (next : A → Action W B)
      → ((a : A) → Quiet view (next a))
      → (before : X) (done : Machine W × Result A SyncError) → view done.0 ≡ before
      → view (continue next done).0 ≡ before
  unfolding continue
  Quiet-continue next k before (m, ok value) h = (k value).at m ∙ h
  Quiet-continue next k before (m, err e) h = h

  pub Quiet-bind :
      (first : Action W A) (next : A → Action W B)
      → Quiet view first
      → ((a : A) → Quiet view (next a))
      → Quiet view (first >>= next)
  unfolding ◌>>=◌
  Quiet-bind first next h k = record { at = λ m. Quiet-continue next k (view m) (first m) (h.at m) }

  module _ {step : X → X → Type 0} where
    Steps-continue :
        (next : A → Action W B)
        → ((a : A) → Steps view step (next a))
        → (before : Machine W) (done : Machine W × Result A SyncError) → view done.0 ≡ view before
        → Stepped view step before (continue next done)
    unfolding continue
    Steps-continue next k before (m, ok value) h =
        Stepped-from view step before m (next value m) h ((k value).at m)
    Steps-continue next k before (m, err e) h = h

    -- What comes before the step.
    pub Steps-bind :
        (first : Action W A) (next : A → Action W B)
        → Quiet view first
        → ((a : A) → Steps view step (next a))
        → Steps view step (first >>= next)
    unfolding ◌>>=◌
    Steps-bind first next h k = record { at = λ m. Steps-continue next k m (first m) (h.at m) }

pub ruleset quiet_rules =
    (Quiet-return, Quiet-outcome, Quiet-call, Quiet-if, Quiet-get_state, Quiet-bind)
