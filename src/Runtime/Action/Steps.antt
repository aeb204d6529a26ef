-- ===== src/Runtime/Action/Steps.antt =====
-- A relation between states before and after, carried through whole actions: if it is reflexive and
-- transitive, and every change of state keeps it, the actions built of those changes keep it, on
-- success and on error alike.
use rollforward.Prelude.{◌≡◌, refl, List, [], ◌∷◌}
use rollforward.Errors.{Result, ok, err, SyncError}
use rollforward.Runtime.State.{RuntimeState}
use rollforward.Runtime.Action.{
  Action, Call, Machine, ◌>>=◌, get_state, read_world, modify, call, return, outcome, continue,
  for_each, get_run, update_run, notify, recover, catch, Progress,
}

module _ {W A B : Type 0} (P : Machine W × Result B SyncError → Type 0) where
  -- What follows an outcome, by cases on it.
  pub continue-cases :
      (next : A → Action W B) (done : Machine W × Result A SyncError)
      → ((m : Machine W) (e : SyncError) → done ≡ (m, err e) → P (m, err e))
      → ((m : Machine W) (value : A) → done ≡ (m, ok value) → P (next value m))
      → P (continue next done)
  unfolding continue
  continue-cases next (m, ok value) failed done = done m value refl
  continue-cases next (m, err e) failed done = failed m e refl

module _ {W : Type 0} (R : RuntimeState → RuntimeState → Type 0) (same : (s : RuntimeState) → R s s)
    (then : (s t u : RuntimeState) → R s t → R t u → R s u) where
  abbrev pub Keeps : {A : Type 0} → Action W A → Type 0
  Keeps action = (m : Machine W) → R m.state (action m).0.state

  Keeps-continue :
      {A B : Type 0} (next : A → Action W B)
      → ((a : A) → Keeps (next a))
      → (s : RuntimeState) (done : Machine W × Result A SyncError) → R s done.0.state
      → R s (continue next done).0.state
  unfolding continue
  Keeps-continue next k s (m, ok value) h = then s m.state _ h (k value m)
  Keeps-continue next k s (m, err e) h = h

  pub Keeps-bind :
      {A B : Type 0} (first : Action W A) (next : A → Action W B)
      → Keeps first
      → ((a : A) → Keeps (next a))
      → Keeps (first >>= next)
  unfolding ◌>>=◌
  Keeps-bind first next h k m = Keeps-continue next k m.state (first m) (h m)

  pub Keeps-return : {A : Type 0} (a : A) → Keeps (return a)
  unfolding return
  Keeps-return a m = same m.state

  pub Keeps-get_state : Keeps get_state
  unfolding get_state
  Keeps-get_state m = same m.state

  pub Keeps-read_world : {A : Type 0} (f : W → A) → Keeps (read_world f)
  unfolding read_world
  Keeps-read_world f m = same m.state

  pub Keeps-get_run : Keeps get_run
  unfolding get_run
  Keeps-get_run m = same m.state

  pub Keeps-update_run : (change : Progress → Progress) → Keeps (update_run change)
  unfolding update_run
  Keeps-update_run change m = same m.state

  pub Keeps-notify : (f : W → W) → Keeps (notify f)
  unfolding notify
  Keeps-notify f m = same m.state

  Keeps-recover :
      {A : Type 0} (handler : SyncError → Action W A)
      → ((e : SyncError) → Keeps (handler e))
      → (s : RuntimeState) (done : Machine W × Result A SyncError) → R s done.0.state
      → R s (recover handler done).0.state
  unfolding recover
  Keeps-recover handler k s (m, ok value) h = h
  Keeps-recover handler k s (m, err e) h = then s m.state _ h (k e m)

  pub Keeps-catch :
      {A : Type 0} (body : Action W A) (handler : SyncError → Action W A)
      → Keeps body
      → ((e : SyncError) → Keeps (handler e))
      → Keeps (catch body handler)
  unfolding catch
  Keeps-catch body handler h k m = Keeps-recover handler k m.state (body m) (h m)

  pub Keeps-outcome : {A : Type 0} (r : Result A SyncError) → Keeps (outcome r)
  unfolding outcome
  Keeps-outcome r m = same m.state

  pub Keeps-call : {A : Type 0} (c : Call W A) → Keeps (call c)
  unfolding call
  Keeps-call c m = same m.state

  pub Keeps-modify :
      (change : RuntimeState → RuntimeState)
      → ((s : RuntimeState) → R s (change s))
      → Keeps (modify change)
  unfolding modify
  Keeps-modify change h m = h m.state

  pub Keeps-for_each :
      {A : Type 0} (body : A → Action W Unit) (xs : List A)
      → ((a : A) → Keeps (body a))
      → Keeps (for_each body xs)
  unfolding for_each return
  Keeps-for_each body [] h m = same m.state
  Keeps-for_each body (x ∷ xs) h m =
      Keeps-bind (body x) (λ _. for_each body xs) (h x) (λ _. Keeps-for_each body xs h) m
