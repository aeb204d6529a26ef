-- ===== src/Runtime/Inventory.antt =====
-- `local_inventory` (src/runtime.rs): the local resources, with the content ids that the replica
-- left out.
use rollforward.Prelude.{
  String, Bool, true, false, Option, none, some, List, [], ◌∷◌, ◌++◌, map, ◌==◌, list_eq, nat_eq,
  list_ord, nat_ord, if◌then◌else◌, filter, length, str,
}
use rollforward.Collections.BTreeMap
use rollforward.Collections.BTreeMap.{BTreeMap}
use rollforward.Errors.{Result, ok, err, SyncError, io_error, traverse}
use rollforward.Types.{
  ResourceKey, ReplicaState, BaselineState, LocalResource, ResourceContent, encoded, key_eq,
  key_ord,
}
use rollforward.Foreign.{Hashing}
use rollforward.Runtime.State.{RuntimeState}
use rollforward.Runtime.Action.{Action, Adapters, ◌>>=◌, call, return, outcome}

abbrev pub is_empty : String → Bool
is_empty [] = true
is_empty (c ∷ s) = false

-- A present resource without a content id.
abbrev pub unresolved : LocalResource → Bool
unresolved resource = elim resource.state [
  | ReplicaState.present content_id _ _ ↦ is_empty content_id
  | ReplicaState.missing ↦ false
  | ReplicaState.deleted _ ↦ false
]

-- The acknowledged content id of this very version, if the baseline is of it.
abbrev pub acknowledged : String → BaselineState → Option String
acknowledged version_token (BaselineState.present content_id local_version _) =
    if local_version == version_token then some content_id else none
acknowledged version_token (BaselineState.deleted _) = none

unfoldable pub cached : RuntimeState → ResourceKey → String → Option String
cached state key version_token = elim (BTreeMap.get (encoded key) state.baselines) [
  | none ↦ none
  | some entry ↦ acknowledged version_token entry.state
]

-- The body of the first loop: the resource with its cached id, and whether it has to be read.
unfoldable pub from_cache : RuntimeState → LocalResource → LocalResource × Bool
unfolding cached
from_cache state resource = elim resource.state [
  | ReplicaState.present content_id size token ↦
      if is_empty content_id
      then elim (cached state resource.key token) [
        | none ↦ (resource, true)
        | some id ↦ (record resource { state = ReplicaState.present id size token }, false)
      ]
      else (resource, false)
  | ReplicaState.missing ↦ (resource, false)
  | ReplicaState.deleted _ ↦ (resource, false)
]

unfoldable pub not_returned : ResourceKey → SyncError
not_returned key = io_error (str "local replica did not return " ++ encoded key)

module _ (f : Hashing) where
  -- The body of the second loop.
  unfoldable pub resolve :
      BTreeMap ResourceKey ResourceContent → LocalResource → Result LocalResource SyncError
  unfolding not_returned
  resolve contents resource = elim resource.state [
    | ReplicaState.present content_id size token ↦
        if is_empty content_id
        then elim (BTreeMap.get resource.key contents) [
          | none ↦ err (not_returned resource.key)
          | some content ↦ ok (record resource {
            state = ReplicaState.present (f.blake3 content.bytes) (length content.bytes) token;
          })
        ]
        else ok resource
    | ReplicaState.missing ↦ ok resource
    | ReplicaState.deleted _ ↦ ok resource
  ]

  module _ {W : Type 0} (a : Adapters W) where
    -- The reading of those that the cache does not have.
    unfoldable pub read_asked :
        List LocalResource → List (LocalResource × Bool) → Action W (List LocalResource)
    unfolding resolve traverse
    read_asked resources [] = return resources
    read_asked resources (r ∷ rest) =
        call (a.read_resources (map (λ q. q.0.key) (r ∷ rest))) >>= (λ contents. outcome (
          traverse (resolve (BTreeMap.from_list (map (λ content. (content.key, content)) contents)))
            resources))

    -- The second half, once the cache has been asked.
    unfoldable pub read_rest : List (LocalResource × Bool) → Action W (List LocalResource)
    unfolding read_asked
    read_rest asked = read_asked (map (λ r. r.0) asked) (filter (λ r. r.1) asked)

    unfoldable pub local_inventory : RuntimeState → List String → Action W (List LocalResource)
    unfolding from_cache read_rest
    local_inventory state scopes =
        call (a.list_resources scopes)
        >>= (λ resources. read_rest (map (from_cache state) resources))
