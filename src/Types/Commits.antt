-- ===== src/Types/Commits.antt =====
-- `ResourceChange` and `Commit`.
use rollforward.Prelude.{ℕ, ℤ, String, Bytes, List, ◌∷◌, ◌++◌, decimal, list_ord, nat_ord}
use rollforward.Collections.BTreeSet
use rollforward.Types.Key.{ResourceKey}

pub data ResourceChange : Type 0 where
  binary_snapshot : (content_id : String) (size : ℕ) (chunk_hashes : List String) → ResourceChange
  text_delta : (delta : Bytes) → ResourceChange
  delete : ResourceChange

pub record Commit : Type 0 where
  pub id : String
  pub resource : ResourceKey
  pub parents : List String
  pub author : String
  pub client_counter : ℕ
  pub timestamp : ℤ
  pub change : ResourceChange

-- `serde_json::to_vec(..).unwrap_or_default()` of the tuple that a commit's digest is taken of.
abbrev pub CommitBytes : Type 0
CommitBytes = ResourceKey → List String → String → ℕ → ℤ → ResourceChange → Bytes

-- `format!("{author}:{client_counter}:{digest}")`.
unfoldable pub commit_id : String → ℕ → String → String
unfolding decimal
commit_id author counter digest = author ++ (58 ∷ (decimal counter ++ (58 ∷ digest)))

-- `Commit::create`. The parents are sorted, and repeated ones dropped.
unfoldable pub create_commit :
    (Bytes → String)
    → CommitBytes
    → ℤ
    → ResourceKey
    → List String
    → String
    → ℕ
    → ResourceChange
    → Commit
unfolding commit_id
create_commit blake3 encode now resource parents author counter change =
    let parents' = BTreeSet.from_list parents in
    let digest = blake3 (encode resource parents' author counter now change) in
    record {
      id = commit_id author counter digest;
      resource = resource;
      parents = parents';
      author = author;
      client_counter = counter;
      timestamp = now;
      change = change;
    }
