-- ===== src/Runtime/State.antt =====
-- `RuntimeState` and its records (src/runtime.rs), and what is read off its commit graph.
use mathlib.Core.List.{reverse}
use rollforward.Prelude.{
  ℕ, zero, suc, ◌+◌, String, Bytes, Bool, true, false, Option, none, some, List, [], ◌∷◌, ◌++◌, map,
  ◌==◌, list_eq, nat_eq, list_ord, nat_ord, if◌then◌else◌, length, filter, contains,
}
use rollforward.Collections.BTreeMap
use rollforward.Collections.BTreeMap.{BTreeMap, keys, values}
use rollforward.Collections.BTreeSet
use rollforward.Types.{
  ResourceKey, ResourceKind, BaselineState, ConflictRecord, Commit, CatalogCursor, key_eq, key_ord,
}

pub record StoredBaseline : Type 0 where
  pub key : ResourceKey
  pub state : BaselineState
  pub last_operation_id : String

pub record OperationJournal : Type 0 where
  pub id : String
  pub key : ResourceKey
  pub stage : String

pub record RunJournal : Type 0 where
  pub id : String
  pub operations : List OperationJournal

pub record StoredCheckpoint : Type 0 where
  pub key : ResourceKey
  pub commit_id : String

pub record RuntimeState : Type 0 where
  pub counter : ℕ
  pub baselines : BTreeMap String StoredBaseline
  pub commits : BTreeMap String Commit
  pub cursors : List CatalogCursor
  pub conflicts : BTreeMap String ConflictRecord
  pub kinds : BTreeMap String ResourceKind
  pub text_states : BTreeMap String Bytes
  pub active_run : Option RunJournal
  pub retired_clients : List String
  pub checkpoints : BTreeMap String StoredCheckpoint
  pub catalog_events_since_snapshot : BTreeMap String ℕ

-- `RuntimeState::default`.
abbrev pub default_state : RuntimeState
default_state = record {
  counter = 0;
  baselines = [];
  commits = [];
  cursors = [];
  conflicts = [];
  kinds = [];
  text_states = [];
  active_run = none;
  retired_clients = [];
  checkpoints = [];
  catalog_events_since_snapshot = [];
}

-- `scopes.is_empty() || scopes.contains(..)`; a set that is only asked for members is a list.
unfoldable pub in_scopes : List String → String → Bool
in_scopes [] scope = true
in_scopes (s ∷ scopes) scope = contains (s ∷ scopes) scope

unfoldable pub baseline_pairs : RuntimeState → List String → List (ResourceKey × BaselineState)
unfolding in_scopes
baseline_pairs state scopes =
    map (λ entry. (entry.key, entry.state))
      (filter (λ entry. in_scopes scopes entry.key.scope_id) (values state.baselines))

unfoldable pub resource_commits : RuntimeState → ResourceKey → List Commit
resource_commits state key = filter (λ commit. commit.resource == key) (values state.commits)

-- `commits.iter().flat_map(|commit| commit.parents.iter().cloned())`.
unfoldable pub all_parents : List Commit → List String
all_parents [] = []
all_parents (commit ∷ commits) = commit.parents ++ all_parents commits

unfoldable pub heads : RuntimeState → ResourceKey → List String
unfolding resource_commits all_parents
heads state key =
    let commits = resource_commits state key in
    let ids = BTreeSet.from_list (map (λ commit. commit.id) commits) in
    let parents = BTreeSet.from_list (all_parents commits) in BTreeSet.difference ids parents

unfoldable pub remote_keys : RuntimeState → List String → List ResourceKey
unfolding in_scopes
remote_keys state scopes = BTreeSet.from_list (
    map (λ commit. commit.resource)
      (filter (λ commit. in_scopes scopes commit.resource.scope_id) (values state.commits)))

-- The parents that the walk of `is_descendant` goes on to.
unfoldable pub parents_of : RuntimeState → String → List String
parents_of state id = elim (BTreeMap.get id state.commits) [
  | none ↦ []
  | some commit ↦ commit.parents
]

-- The same in `text_doc_at`, which stays within one resource.
unfoldable pub parents_within : RuntimeState → ResourceKey → String → List String
parents_within state key id = elim (BTreeMap.get id state.commits) [
  | none ↦ []
  | some commit ↦ if commit.resource == key then commit.parents else []
]

-- The loop of `is_descendant`, its stack from the top. `none`: the fuel is used up.
unfoldable pub descends :
    (String → List String) → String → ℕ → List String → List String → Option Bool
descends edges ancestor zero pending visited = none
descends edges ancestor (suc fuel) [] visited = some false
descends edges ancestor (suc fuel) (id ∷ pending) visited =
    let skip = descends edges ancestor fuel pending visited in
    let enter =
      descends edges ancestor fuel (reverse (edges id) ++ pending) (BTreeSet.insert id visited) in
    if id == ancestor then some true else if BTreeSet.member id visited then skip else enter

-- The loop of `text_doc_at`: the ids that are reached.
unfoldable pub reach : (String → List String) → ℕ → List String → List String → Option (List String)
reach edges zero pending visited = none
reach edges (suc fuel) [] visited = some visited
reach edges (suc fuel) (id ∷ pending) visited =
    let skip = reach edges fuel pending visited in
    let enter = reach edges fuel (reverse (edges id) ++ pending) (BTreeSet.insert id visited) in
    if BTreeSet.member id visited then skip else enter

-- As many rounds as the loops can take: one, and one for each parent that a commit names.
unfoldable pub rounds : RuntimeState → ℕ
unfolding all_parents
rounds state = 2 + length (all_parents (values state.commits))

unfoldable pub is_descendant : RuntimeState → String → String → Option Bool
unfolding descends parents_of rounds
is_descendant state candidate ancestor =
    descends (parents_of state) ancestor (rounds state) (candidate ∷ []) []

unfoldable pub reachable : RuntimeState → ResourceKey → String → Option (List String)
unfolding reach parents_within rounds
reachable state key head = reach (parents_within state key) (rounds state) (head ∷ []) []

-- `state.commits.insert(commit.id.clone(), commit)`.
unfoldable pub record_commit : Commit → RuntimeState → RuntimeState
record_commit commit state = record state {
  commits = BTreeMap.insert commit.id commit state.commits;
}
