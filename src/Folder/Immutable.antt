-- ===== src/Folder/Immutable.antt =====
-- What `commit_batch` (src/v2_remote.rs) does to the files that are there.
use rollforward.Prelude.{String, Bytes, ◌≡◌, some, List, [], list_ord, nat_ord}
use rollforward.Collections.BTreeMap
use rollforward.Types.{Commit, CommitBatch}
use rollforward.Folder.{
  FilePath, Files, Formats, segment_for, store_commit, store_segment, group_commits, commit_batch,
}
use rollforward.Folder.Keeps.{
  Has, Keeps, Keeps-write_immutable, Keeps-bind, Keeps-return, Keeps-for_each, Keeps-with_json,
}

module _ (f : Formats) (path : FilePath) (bytes : Bytes) where
  pub Keeps-store_commit : (commit : Commit) → Keeps (Has path bytes) (store_commit f commit)
  unfolding store_commit
  Keeps-store_commit commit =
      Keeps-with_json (Has path bytes) (f.commit_json commit) _
        (λ b _. Keeps-write_immutable path bytes _ b)

  pub Keeps-store_segment :
      (group : (String × String) × List Commit) → Keeps (Has path bytes) (store_segment f group)
  unfolding store_segment
  Keeps-store_segment group =
      Keeps-with_json (Has path bytes) (f.segment_json (segment_for group)) _
        (λ b _. Keeps-write_immutable path bytes _ b)

  Keeps-commit_batch : (batch : CommitBatch) → Keeps (Has path bytes) (commit_batch f batch)
  unfolding commit_batch
  Keeps-commit_batch batch =
      Keeps-bind (Has path bytes) _ _
        (Keeps-for_each (Has path bytes) _ batch.packs
          (λ pack. Keeps-write_immutable path bytes _ _))
        (λ _.
          Keeps-bind (Has path bytes) _ _
            (Keeps-for_each (Has path bytes) _ batch.indexes
              (λ index. Keeps-write_immutable path bytes _ _))
            (λ _.
              Keeps-bind (Has path bytes) _ _
                (Keeps-for_each (Has path bytes) _ batch.commits Keeps-store_commit)
                (λ _.
                  Keeps-bind (Has path bytes) _ _
                    (Keeps-for_each (Has path bytes) _ (group_commits batch.commits [])
                      Keeps-store_segment)
                    (λ _. Keeps-return (Has path bytes) _))))

-- A batch leaves every file that the folder has as it is, also where it fails midway.
pub commit_batch-immutable :
    (f : Formats) (batch : CommitBatch) (files : Files) (path : FilePath) (bytes : Bytes)
    → BTreeMap.get path files ≡ some bytes
    → BTreeMap.get path (commit_batch f batch files).0 ≡ some bytes
commit_batch-immutable f batch files path bytes = Keeps-commit_batch f path bytes batch files
