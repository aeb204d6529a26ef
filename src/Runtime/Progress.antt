-- ===== src/Runtime/Progress.antt =====
-- `SyncRuntime`, its events and its saving (src/runtime.rs).
use rollforward.Prelude.{
  ℕ, String, Bytes, Option, none, some, List, [], ◌∷◌, ◌++◌, str, decimal, list_ord, nat_ord,
  unwrap_or,
}
use rollforward.Collections.BTreeMap
use rollforward.Errors.{Result, ok, err, SyncError}
use rollforward.Types.{ResourceKey, EngineEvent}
use rollforward.Foreign.{Hashing}
use rollforward.Text.Document.{Yrs}
use rollforward.Runtime.State.{RuntimeState, default_state}
use rollforward.Runtime.Action.{
  Action, Adapters, Machine, Progress, ◌>>=◌, get_state, update_run, notify, call, return, outcome,
  new_run,
}
use rollforward.Runtime.Refresh.{incr}
use rollforward.Runtime.Codecs.{Codecs, Fields, Detail, Scalar}
use rollforward.Runtime.Publish.{serde}

-- The runtime's parts. Its state is in the machine.
pub record SyncRuntime (W : Type 0) : Type 1 where
  pub client_id : String
  pub adapters : Adapters W
  pub hashing : Hashing
  pub yrs : Yrs
  pub codecs : Codecs

abbrev pub number : ℕ → Detail
number n = Detail.scalar (Scalar.number n)

abbrev pub text_field : String → Detail
text_field s = Detail.scalar (Scalar.string s)

-- `Display` of an error.
unfoldable pub message : SyncError → String
message (SyncError.io_error msg) = str "I/O error: " ++ msg
message SyncError.conflict_need_resolution = str "sync conflict, user policy required"
message (SyncError.conflict sequence) =
    str "compare-and-swap conflict at sequence " ++ decimal sequence
message (SyncError.retry_exhausted attempts) =
    str "retry exhausted after " ++ (decimal attempts ++ str " attempts")
message (SyncError.serde_error msg) = str "serialization error: " ++ msg
message (SyncError.corrupt hash) =
    str "chunk " ++ (hash ++ str " failed integrity check (corrupt or truncated)")

-- `*failures.entry(scope).or_default() += 1; report.failures += 1`.
unfoldable pub add_failure : String → Progress → Progress
add_failure scope run = record run {
  failures =
      BTreeMap.insert scope (incr (unwrap_or 0 (BTreeMap.get scope run.failures))) run.failures;
  report = record run.report { failures = incr run.report.failures };
}

module _ {W : Type 0} (r : SyncRuntime W) where
  unfoldable pub event : String → String → String → Option ResourceKey → Fields → EngineEvent
  event run_id operation_id stage resource fields = record {
    run_id = run_id;
    operation_id = operation_id;
    stage = stage;
    resource = resource;
    detail_json = r.codecs.detail_json fields;
  }

  unfoldable pub emit : List EngineEvent → Action W Unit
  emit [] = return tt
  emit (e ∷ events) = notify (r.adapters.on_events (e ∷ events))

  unfoldable pub emit_progress : EngineEvent → Action W Unit
  unfolding emit
  emit_progress e = do
    _ ← emit (e ∷ [])
    update_run (λ run. record run { events = run.events ++ (e ∷ []) })

  -- `RuntimeState::save`.
  unfoldable pub save : Action W Unit
  save = do
    state ← get_state
    bytes ← outcome (serde (r.codecs.state_json state))
    call (r.adapters.save_runtime_state bytes)

-- What `RuntimeState::load` makes of the stored bytes.
unfoldable pub stored_state : Codecs → Option Bytes → Result RuntimeState SyncError
stored_state k none = ok default_state
stored_state k (some bytes) = serde (k.state_from_json bytes)

-- `with_backends`: the machine that a runtime starts from. (With a policy it is the same.)
unfoldable pub with_backends : {W : Type 0} → SyncRuntime W → W → W × Result (Machine W) SyncError
unfolding stored_state
with_backends r world =
    let (world', loaded) = r.adapters.load_runtime_state world in
    (
      world',
      elim loaded [
        | err e ↦ err e
        | ok stored ↦ elim (stored_state r.codecs stored) [
          | err e ↦ err e
          | ok state ↦ ok (record { state = state; world = world'; run = new_run [] })
        ]
      ],
    )
