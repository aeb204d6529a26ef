-- ===== src/Runtime/Maintain.antt =====
-- The first loop of `maintain` (src/runtime.rs): for each resource, a checkpoint is published and
-- acknowledged before its old commits become obsolete.
pub mod Sweep
pub mod Retained
pub mod Loop
pub mod GivenUp
use mathlib.Core.List.{foldl}
use rollforward.Prelude.{
  ℕ, ◌+◌, ◌%◌, ◌^◌, ℤ, String, Bytes, Bool, true, false, not, ◌&&◌, ◌||◌, Option, none, some, List,
  [], ◌∷◌, ◌++◌, map, ◌==◌, str, list_eq, nat_eq, int_eq, int_lt, list_ord, nat_ord, Ord, leb,
  if◌then◌else◌, length, filter, take, all, any, contains, unwrap_or, head?, last?,
}
use rollforward.Collections.BTreeMap
use rollforward.Collections.BTreeMap.{BTreeMap, values}
use rollforward.Collections.BTreeSet
use rollforward.Collections.Sort.{sort_by}
use rollforward.Errors.{Result, ok, err, SyncError, io_error, ok_or}
use rollforward.Types.{
  ResourceKey, ResourceKind, text, binary, Commit, ResourceChange, ResourceAck, V2MaintenanceReport,
  encoded, key_eq, kind_eq,
}
use rollforward.Runtime.State.{
  RuntimeState, StoredCheckpoint, RunJournal, resource_commits, heads, is_descendant,
}
use rollforward.Runtime.Remote.{is_text_delta}
use rollforward.Runtime.Action.{
  Action, Adapters, Machine, ◌>>=◌, get_state, modify, call, return, outcome,
}
use rollforward.Runtime.Refresh.{incr}
use rollforward.Runtime.Publish.{publish_bytes, publish_delete}
use rollforward.Runtime.Content.{content_for_remote}
use rollforward.Runtime.Progress.{SyncRuntime}

-- The variables of the loop. The obsolete ids of a scope are a set.
pub record Maintenance : Type 0 where
  pub report : V2MaintenanceReport
  pub obsolete_by_scope : BTreeMap String (List String)

abbrev pub no_report : V2MaintenanceReport
no_report = record {
  resources = 0;
  commits_deleted = 0;
  deferred = 0;
  packs_deleted = 0;
  packs_repacked = 0;
  bytes_reclaimed = 0;
}

-- `report.deferred += 1`.
unfoldable pub defer : Maintenance → Maintenance
defer acc = record acc { report = record acc.report { deferred = incr acc.report.deferred } }

unfoldable pub drop_checkpoint : ResourceKey → RuntimeState → RuntimeState
drop_checkpoint key state = record state {
  checkpoints = BTreeMap.remove (encoded key) state.checkpoints;
}

unfoldable pub set_checkpoint : ResourceKey → String → RuntimeState → RuntimeState
set_checkpoint key id state = record state {
  checkpoints =
      BTreeMap.insert (encoded key) (record { key = key; commit_id = id }) state.checkpoints;
}

abbrev pub in_run : Option RunJournal → ResourceKey → Bool
in_run none key = false
in_run (some run) key = any (λ operation. operation.key == key) run.operations

-- More or fewer heads than one, a conflict, or an operation of a run that has not ended.
unfoldable pub is_conflicted : RuntimeState → ResourceKey → Bool
is_conflicted state key =
    not (length (heads state key) == 1)
    || (any (λ conflict. conflict.resource == key) (values state.conflicts)
        || in_run state.active_run key)

abbrev pub kind_of_last : Option Commit → ResourceKind
kind_of_last none = binary
kind_of_last (some commit) = if is_text_delta commit.change then text else binary

unfoldable pub maintained_kind : RuntimeState → ResourceKey → ResourceKind
maintained_kind state key =
    unwrap_or (kind_of_last (last? (resource_commits state key)))
      (BTreeMap.get (encoded key) state.kinds)

-- The clients that have to acknowledge: the authors that are not retired, and this client.
unfoldable pub active_clients : RuntimeState → ResourceKey → String → List String
active_clients state key client_id =
    filter (λ client. not (contains state.retired_clients client))
      (map (λ commit. commit.author) (resource_commits state key))
    ++ (client_id ∷ [])

-- An acknowledgement of the checkpoint by this client.
unfoldable pub acknowledges : RuntimeState → ResourceKey → String → String → ResourceAck → Bool
acknowledges state key checkpoint client ack =
    (ack.client_id == client)
    && ((ack.resource == key)
        && any (λ head. unwrap_or false (is_descendant state head checkpoint)) ack.observed_heads)

unfoldable pub all_acknowledged :
    RuntimeState → List ResourceAck → ResourceKey → String → List String → Bool
unfolding acknowledges
all_acknowledged state acks key checkpoint clients =
    all (λ client. any (acknowledges state key checkpoint client) acks) clients

-- `right.cmp(left)` of a time and an id.
unfoldable pub newer : ℤ × String → ℤ × String → Bool
newer left right =
    let below : String → String → Bool = Ord.lt (list_ord ⦃o = nat_ord⦄) in
    int_lt right.0 left.0 || ((right.0 == left.0) && below right.1 left.1)

unfoldable pub newest : ℕ → RuntimeState → ResourceKey → List String
unfolding newer
newest n state key =
    map (λ entry. entry.1)
      (take n (
        sort_by newer (map (λ commit. (commit.timestamp, commit.id)) (resource_commits state key))))

abbrev pub pinned : List ResourceAck → ResourceKey → List String
pinned [] key = []
pinned (ack ∷ acks) key =
    let rest = pinned acks key in if ack.resource == key then ack.pinned_commits ++ rest else rest

unfoldable pub retained : ℕ → RuntimeState → List ResourceAck → ResourceKey → String → List String
unfolding newest
retained n state acks key checkpoint = newest n state key ++ (checkpoint ∷ pinned acks key)

unfoldable pub obsolete : ℕ → RuntimeState → List ResourceAck → ResourceKey → String → List String
unfolding retained
obsolete n state acks key checkpoint =
    let kept = retained n state acks key checkpoint in
    map (λ commit. commit.id)
      (filter (λ commit. not (contains kept commit.id)) (resource_commits state key))

-- `entry(scope).or_default().extend(obsolete)`.
unfoldable pub add_obsolete : String → List String → Maintenance → Maintenance
add_obsolete scope ids acc = record acc {
  obsolete_by_scope =
      BTreeMap.insert scope
        (foldl (λ set id. BTreeSet.insert id set)
          (unwrap_or [] (BTreeMap.get scope acc.obsolete_by_scope)) ids)
        acc.obsolete_by_scope;
}

module _ {W : Type 0} (r : SyncRuntime W) where
  -- A commit on top of the head that needs none of its history.
  unfoldable pub publish_checkpoint : ResourceKey → String → ResourceChange → Action W Commit
  publish_checkpoint key head ResourceChange.delete =
      publish_delete r.adapters r.hashing r.yrs r.codecs r.client_id key (head ∷ [])
  publish_checkpoint key head (ResourceChange.text_delta _) = get_state >>= (λ state.
      content_for_remote r.adapters r.yrs state key (some head) >>= (λ content.
        publish_bytes r.adapters r.hashing r.yrs r.codecs r.client_id key binary content
          (head ∷ [])))
  publish_checkpoint key head (ResourceChange.binary_snapshot _ _ _) = get_state >>= (λ state.
      content_for_remote r.adapters r.yrs state key (some head) >>= (λ content.
        publish_bytes r.adapters r.hashing r.yrs r.codecs r.client_id key binary content
          (head ∷ [])))

  -- Without a checkpoint, one is made of the head. (`heads[0]` is there, since there is one head.)
  unfoldable pub make_checkpoint : ResourceKey → Maintenance → Action W Maintenance
  unfolding publish_checkpoint set_checkpoint defer
  make_checkpoint key acc = do
    state ← get_state
    head ← outcome (ok_or (io_error (str "index out of bounds")) (head? (heads state key)))
    selected ←
        outcome
          (ok_or (io_error (str "missing head commit " ++ head)) (BTreeMap.get head state.commits))
    commit ← publish_checkpoint key head selected.change
    _ ← modify (set_checkpoint key commit.id)
    _ ← call (
        r.adapters.write_acknowledgements (
          record {
            client_id = r.client_id;
            resource = key;
            observed_heads = commit.id ∷ [];
            pinned_commits = [];
          }
          ∷ []))
    return (defer acc)

  unfoldable pub collect : ResourceKey → List String → Maintenance → Action W Maintenance
  unfolding drop_checkpoint add_obsolete
  collect key [] acc = modify (drop_checkpoint key) >>= (λ _. return acc)
  collect key (id ∷ ids) acc = return (add_obsolete key.scope_id (id ∷ ids) acc)

  unfoldable pub reclaim :
      ℕ
      → List ResourceAck
      → ResourceKey
      → Option StoredCheckpoint
      → Maintenance
      → Action W Maintenance
  unfolding make_checkpoint all_acknowledged active_clients obsolete collect defer
  reclaim n acks key none acc = make_checkpoint key acc
  reclaim n acks key (some checkpoint) acc = get_state >>= (λ state.
      let id = checkpoint.commit_id in
      if all_acknowledged state acks key id (active_clients state key r.client_id)
      then collect key (obsolete n state acks key id) acc
      else return (defer acc))

  -- The body of the loop.
  unfoldable pub maintain_key :
      ℕ → List ResourceAck → ResourceKey → Maintenance → Action W Maintenance
  unfolding drop_checkpoint is_conflicted maintained_kind defer reclaim
  maintain_key n acks key acc = get_state >>= (λ state.
      if leb (length (resource_commits state key)) n
      then modify (drop_checkpoint key) >>= (λ _. return acc)
      else if is_conflicted state key || (maintained_kind state key == text)
      then return (defer acc)
      else reclaim n acks key (BTreeMap.get (encoded key) state.checkpoints) acc)

  unfoldable pub maintain_keys :
      ℕ → List ResourceAck → List ResourceKey → Maintenance → Action W Maintenance
  unfolding maintain_key
  maintain_keys n acks [] acc = return acc
  maintain_keys n acks (key ∷ keys) acc =
      maintain_key n acks key acc >>= (λ acc'. maintain_keys n acks keys acc')
