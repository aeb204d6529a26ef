-- ===== src/Types/Conflict.antt =====
-- `ConflictKind` and `ConflictRecord`.
use rollforward.Prelude.{ℤ, String, Bytes, List, Eq, list_ord, nat_ord}
use rollforward.Collections.Sort.{sort}
use rollforward.Types.Key.{ResourceKey}
use rollforward.Types.States.{ReplicaState, RemoteResourceState, remote_heads}

pub data ConflictKind : Type 0 where
  initial_divergence content_vs_content delete_vs_modify : ConflictKind
  modify_vs_delete remote_fork precondition_failed : ConflictKind

ConflictKind-discrete : Discrete ConflictKind
ConflictKind-discrete = hlevel

instance unfoldable pub conflict_kind_eq : Eq ConflictKind
unfolding ConflictKind-discrete
conflict_kind_eq = record { dec = ConflictKind-discrete }

pub record ConflictRecord : Type 0 where
  pub id : String
  pub resource : ResourceKey
  pub kind : ConflictKind
  pub local : ReplicaState
  pub remote_heads : List String
  pub created_at : ℤ

-- `serde_json::to_vec(..).unwrap_or_default()` of the tuple that a conflict's id is hashed from.
abbrev pub ConflictSeed : Type 0
ConflictSeed = ResourceKey → ConflictKind → ReplicaState → List String → Bytes

-- `ConflictRecord::new`. `blake3` is the hex digest, and `now` what the clock shows.
unfoldable pub new_conflict :
    (Bytes → String)
    → ConflictSeed
    → ℤ
    → ResourceKey
    → ConflictKind
    → ReplicaState
    → RemoteResourceState
    → ConflictRecord
new_conflict blake3 seed now resource kind local remote =
    let heads = sort (remote_heads remote) in
    record {
      id = blake3 (seed resource kind local heads);
      resource = resource;
      kind = kind;
      local = local;
      remote_heads = heads;
      created_at = now;
    }
