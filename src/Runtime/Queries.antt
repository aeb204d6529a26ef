-- ===== src/Runtime/Queries.antt =====
-- `list_conflicts` and `history` (src/runtime.rs).
use rollforward.Prelude.{
  String, Bool, true, Option, none, some, List, map, ◌==◌, list_eq, nat_eq, int_lt, filter,
}
use rollforward.Collections.BTreeMap.{values}
use rollforward.Collections.Sort.{sort_by}
use rollforward.Types.{ResourceKey, ConflictRecord, ConflictQuery, Commit, VersionRecord}
use rollforward.Runtime.State.{RuntimeState, resource_commits}
use rollforward.Runtime.Remote.{is_delete}

-- `scope_id.is_none_or(..)`.
abbrev asked : Option String → ConflictRecord → Bool
asked none conflict = true
asked (some scope) conflict = scope == conflict.resource.scope_id

unfoldable pub list_conflicts : RuntimeState → ConflictQuery → List ConflictRecord
list_conflicts state query = filter (asked query.scope_id) (values state.conflicts)

unfoldable pub version_of : Commit → VersionRecord
version_of commit = record {
  commit_id = commit.id;
  parents = commit.parents;
  timestamp = commit.timestamp;
  author = commit.author;
  deleted = is_delete commit.change;
}

-- The versions of a resource by time, those of one time in the order of their ids.
unfoldable pub history : RuntimeState → ResourceKey → List VersionRecord
unfolding version_of
history state resource =
    sort_by (λ left right. int_lt left.timestamp right.timestamp)
      (map version_of (resource_commits state resource))
