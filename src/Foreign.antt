-- ===== src/Foreign.antt =====
-- What the engine takes from other crates, as parameters: the blake3 digest in hex, and serde_json
-- of the tuples that are hashed (`to_vec(..).unwrap_or_default()`, so it never fails there).
use rollforward.Prelude.{String, Bytes}
use rollforward.Types.{ConflictSeed, CommitBytes}

pub record Hashing : Type 0 where
  pub blake3 : Bytes → String
  pub conflict_seed : ConflictSeed
  pub commit_bytes : CommitBytes
