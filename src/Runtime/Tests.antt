-- ===== src/Runtime/Tests.antt =====
-- The theorems on the runtime's state at concrete states, and runs of its queries.
use rollforward.Prelude.{
  ℕ, pos, String, true, false, not, ◌&&◌, ◌≡◌, ◌≢◌, ◌↔◌, ◌⊎◌, refl, ◌+◌, none, some, List, [], ◌∷◌,
  ◌++◌, ◌==◌, list_eq, nat_eq, list_ord, nat_ord, any, all, contains, take, drop, list_lt,
}
use rollforward.Collections.BTreeMap
use rollforward.Collections.BTreeSet
use rollforward.Collections.BTreeSet.{member}
use rollforward.Errors.{ok}
use rollforward.Types.{
  ResourceKey, Commit, ResourceChange, RemoteResourceState, remote_present, key_eq, key_ord,
}
use rollforward.Foreign.{Hashing}
use rollforward.Text.Document.{Yrs}
use rollforward.Runtime.State.{
  RuntimeState, default_state, resource_commits, all_parents, heads, parents_of, descends, rounds,
  is_descendant, reachable, record_commit,
}
use rollforward.Runtime.Graph.Fuel.{walks-end}
use rollforward.Runtime.Graph.Reaches.{Descends}
use rollforward.Runtime.Graph.Descendants.{is_descendant-Descends}
use rollforward.Runtime.Heads.{heads-leaves}
use rollforward.Runtime.Heads.Advance.{heads-record_commit}
use rollforward.Runtime.Remote.{
  is_text_delta, changes_at, state_at, binary_state, same_snapshots, remote_state,
}
use rollforward.Runtime.Remote.Settled.{settled, remote_state-record_commit}
use rollforward.Runtime.Remote.Agreed.{Snapshots, remote_state-agreed}

abbrev plain : Hashing
plain = record {
  blake3 = λ bytes. bytes;
  conflict_seed = λ key kind local heads. key.resource_id;
  commit_bytes = λ key parents author counter now change. key.resource_id;
}

-- A document that is its content.
abbrev content_only : Yrs
content_only = record {
  Doc = List ℕ;
  StateVector = Unit;
  new_doc = [];
  get_string = λ doc. doc;
  state_vector = λ doc. tt;
  empty_vector = tt;
  remove_range = λ doc start count. take start doc ++ drop (start + count) doc;
  insert = λ doc start text. take start doc ++ (text ++ drop start doc);
  encode_state_as_update = λ doc vector. doc;
  apply_update = λ doc update. ok update;
}

abbrev file : ResourceKey
file = record { scope_id = 1 ∷ []; resource_id = 2 ∷ [] }

abbrev commit_of : String → List String → String → Commit
commit_of id parents content = record {
  id = id;
  resource = file;
  parents = parents;
  author = 9 ∷ [];
  client_counter = 1;
  timestamp = pos 0;
  change = ResourceChange.binary_snapshot content 3 [];
}

abbrev root_id : String
root_id = 10 ∷ []

abbrev left_id : String
left_id = 11 ∷ []

abbrev right_id : String
right_id = 12 ∷ []

-- Two clients have written on top of the same commit.
abbrev forked : RuntimeState
forked = record default_state {
  commits =
      (root_id, commit_of root_id [] (5 ∷ []))
      ∷ (left_id, commit_of left_id (root_id ∷ []) (6 ∷ []))
      ∷ (right_id, commit_of right_id (root_id ∷ []) (7 ∷ []))
      ∷ [];
}

abbrev merged : Commit
merged = commit_of (13 ∷ []) (left_id ∷ right_id ∷ []) (8 ∷ [])

heads_of_fork : heads forked file ≡ left_id ∷ right_id ∷ []
unfolding heads resource_commits all_parents BTreeSet.from_list BTreeSet.insert BTreeSet.difference
    BTreeSet.member key_eq list_eq nat_eq list_lt
heads_of_fork = refl

state_of_fork :
    remote_state plain content_only forked file
    ≡ ok (RemoteResourceState.forked (left_id ∷ right_id ∷ []))
unfolding heads resource_commits all_parents BTreeSet.from_list BTreeSet.insert BTreeSet.difference
    BTreeSet.member key_eq list_eq nat_eq remote_state changes_at state_at binary_state
    same_snapshots BTreeMap.get list_lt
state_of_fork = refl

heads-record_commit_example : heads (record_commit merged forked) file ≡ (13 ∷ []) ∷ []
unfolding BTreeMap.get resource_commits key_eq list_eq nat_eq heads all_parents BTreeSet.from_list
    BTreeSet.insert BTreeSet.difference BTreeSet.member list_lt
heads-record_commit_example =
    heads-record_commit forked merged (refl, (refl, (refl, tt))) refl refl refl

heads-leaves_example : member left_id (heads forked file) ≡ (
    any (λ commit. commit.id == left_id) (resource_commits forked file)
    && not (any (λ commit. contains commit.parents left_id) (resource_commits forked file)))
heads-leaves_example = heads-leaves forked file left_id

walks-end_example :
    (is_descendant forked left_id root_id ≢ none) × (reachable forked file left_id ≢ none)
walks-end_example = walks-end forked file left_id root_id

is_descendant-Descends_example :
    (is_descendant forked left_id root_id ≡ some true)
    ↔ Descends (parents_of forked) left_id root_id
is_descendant-Descends_example = is_descendant-Descends forked left_id root_id

descends_test : is_descendant forked left_id right_id ≡ some false
unfolding is_descendant descends rounds parents_of all_parents BTreeSet.insert BTreeSet.member
    list_eq nat_eq BTreeMap.get list_lt
descends_test = refl

remote_state-record_commit_example :
    remote_state plain content_only (record_commit merged forked) file
    ≡ settled plain content_only (record_commit merged forked) file (13 ∷ []) merged.change
unfolding BTreeMap.get resource_commits key_eq list_eq nat_eq heads all_parents BTreeSet.from_list
    BTreeSet.insert BTreeSet.difference BTreeSet.member list_lt
remote_state-record_commit_example =
    remote_state-record_commit plain content_only forked merged (refl, (refl, (refl, tt))) refl refl
      refl

-- The two clients have written the same content.
abbrev agreeing : RuntimeState
agreeing = record default_state {
  commits =
      (left_id, commit_of left_id [] (6 ∷ [])) ∷ (right_id, commit_of right_id [] (6 ∷ [])) ∷ [];
}

state_of_agreeing :
    remote_state plain content_only agreeing file
    ≡ ok (RemoteResourceState.present (6 ∷ []) 3 (left_id ∷ right_id ∷ []))
unfolding heads resource_commits all_parents BTreeSet.from_list BTreeSet.insert BTreeSet.difference
    BTreeSet.member key_eq list_eq nat_eq remote_state changes_at state_at binary_state
    same_snapshots BTreeMap.get remote_present list_lt
state_of_agreeing = refl

remote_state-agreed_example :
    (all is_text_delta (changes_at agreeing (heads agreeing file)) ≡ true)
    ⊎ Snapshots (6 ∷ []) 3 (changes_at agreeing (heads agreeing file))
remote_state-agreed_example =
    remote_state-agreed plain content_only agreeing file (6 ∷ []) 3 (left_id ∷ right_id ∷ [])
      state_of_agreeing
