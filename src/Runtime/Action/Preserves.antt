-- ===== src/Runtime/Action/Preserves.antt =====
-- Predicates on the state that an action preserves, on success and on error alike: one rule for each
-- way to build an action.
use rollforward.Prelude.{Bool, true, false, List, [], ◌∷◌, if◌then◌else◌}
use rollforward.Errors.{Result, ok, err, SyncError}
use rollforward.Runtime.State.{RuntimeState}
use rollforward.Runtime.Action.{
  Action, Call, Machine, Progress, ◌>>=◌, get_state, read_world, modify, call, return, outcome,
  get_run, update_run, notify, catch, recover, continue, for_each,
}

pub record Preserves {W A : Type 0} (P : RuntimeState → Type 0) (action : Action W A) : Type 0 where
  pub at : (m : Machine W) → P m.state → P (action m).0.state

module _ {W A : Type 0} {P : RuntimeState → Type 0} where
  pub Preserves-return : (a : A) → Preserves {W = W} P (return a)
  unfolding return
  Preserves-return a = record { at = λ m h. h }

  pub Preserves-outcome : (r : Result A SyncError) → Preserves {W = W} P (outcome r)
  unfolding outcome
  Preserves-outcome r = record { at = λ m h. h }

  pub Preserves-read_world : (f : W → A) → Preserves P (read_world f)
  unfolding read_world
  Preserves-read_world f = record { at = λ m h. h }

  pub Preserves-call : (c : Call W A) → Preserves P (call c)
  unfolding call
  Preserves-call c = record { at = λ m h. h }

  pub Preserves-if :
      (b : Bool) (first second : Action W A)
      → Preserves P first
      → Preserves P second
      → Preserves P (if b then first else second)
  Preserves-if true first second h k = h
  Preserves-if false first second h k = k

  Preserves-recover :
      (handler : SyncError → Action W A)
      → ((e : SyncError) → Preserves P (handler e))
      → (done : Machine W × Result A SyncError) → P done.0.state
      → P (recover handler done).0.state
  unfolding recover
  Preserves-recover handler k (m, ok value) h = h
  Preserves-recover handler k (m, err e) h = (k e).at m h

  pub Preserves-catch :
      (body : Action W A) (handler : SyncError → Action W A)
      → Preserves P body
      → ((e : SyncError) → Preserves P (handler e))
      → Preserves P (catch body handler)
  unfolding catch
  Preserves-catch body handler h k = record {
    at = λ m p. Preserves-recover handler k (body m) (h.at m p);
  }

module _ {W : Type 0} {P : RuntimeState → Type 0} where
  pub Preserves-get_state : Preserves {W = W} P get_state
  unfolding get_state
  Preserves-get_state = record { at = λ m h. h }

  pub Preserves-get_run : Preserves {W = W} P get_run
  unfolding get_run
  Preserves-get_run = record { at = λ m h. h }

  pub Preserves-update_run :
      (change : Progress → Progress) → Preserves {W = W} P (update_run change)
  unfolding update_run
  Preserves-update_run change = record { at = λ m h. h }

  pub Preserves-notify : (f : W → W) → Preserves P (notify f)
  unfolding notify
  Preserves-notify f = record { at = λ m h. h }

  pub Preserves-modify :
      (change : RuntimeState → RuntimeState)
      → ((s : RuntimeState) → P s → P (change s))
      → Preserves {W = W} P (modify change)
  unfolding modify
  Preserves-modify change k = record { at = λ m h. k m.state h }

module _ {W A B : Type 0} {P : RuntimeState → Type 0} where
  Preserves-continue :
      (next : A → Action W B)
      → ((a : A) → Preserves P (next a))
      → (done : Machine W × Result A SyncError) → P done.0.state
      → P (continue next done).0.state
  unfolding continue
  Preserves-continue next k (m, ok value) h = (k value).at m h
  Preserves-continue next k (m, err e) h = h

  pub Preserves-bind :
      (first : Action W A) (next : A → Action W B)
      → Preserves P first
      → ((a : A) → Preserves P (next a))
      → Preserves P (first >>= next)
  unfolding ◌>>=◌
  Preserves-bind first next h k = record {
    at = λ m p. Preserves-continue next k (first m) (h.at m p);
  }

pub ruleset preserves_rules = (
  Preserves-return, Preserves-outcome, Preserves-read_world, Preserves-call, Preserves-if,
  Preserves-catch, Preserves-get_state, Preserves-get_run, Preserves-update_run, Preserves-notify,
  Preserves-bind,
)

pub Preserves-for_each :
    {W A : Type 0} {P : RuntimeState → Type 0} (body : A → Action W Unit) (xs : List A)
    → ((a : A) → Preserves P (body a))
    → Preserves P (for_each body xs)
unfolding for_each
Preserves-for_each body [] k = Preserves-return tt
Preserves-for_each body (x ∷ xs) k =
    Preserves-bind (body x) (λ _. for_each body xs) (k x) (λ _. Preserves-for_each body xs k)
