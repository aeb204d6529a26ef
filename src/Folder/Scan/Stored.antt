-- ===== src/Folder/Scan/Stored.antt =====
-- What `commit_batch` stores, `load_commits` finds (src/v2_remote.rs).
use mathlib.Core.List.{Memᴰ}
use rollforward.Prelude.{
  ℕ, Option, str, length, String, Bytes, ◌≡◌, refl, sym, some, none, List, [], ◌∷◌, ◌++◌, ◌≢◌, ◌∙◌,
  ap, arith, list_eq, nat_eq, list_ord, nat_ord,
}
use rollforward.Collections.BTreeMap
use rollforward.Collections.BTreeMap.Laws.{get-insert, get-insert_self, contains_key-get}
use rollforward.Errors.{Result, ok, traverse}
use rollforward.Types.{Commit, CommitBatch}
use rollforward.Folder.{
  packs_dir, indexes_dir, commits_dir, FilePath, Files, Formats, store_commit, group_commits,
  commit_batch, commit_path, write_immutable, for_each, read_file, serde_result,
}
use rollforward.Folder.Keeps.{
  Has, Keeps, Keeps-bind, Keeps-return, Keeps-for_each, Keeps-with_json, OnSuccess, OnSuccess-kept,
  OnSuccess-map, Leads, Leads-after, Leads-then,
}
use rollforward.Folder.Immutable.{Keeps-store_commit, Keeps-store_segment}
use rollforward.Folder.Scan.{load_commits, read_commit}

-- The file at the path, if there is one, has these bytes.
abbrev pub Free : FilePath → Bytes → Files → Type 0
Free path bytes files = (found : Bytes) → BTreeMap.get path files ≡ some found → found ≡ bytes

module _ (path : FilePath) (bytes : Bytes) where
  Free-write_immutable :
      (p : FilePath) (b : Bytes)
      → (p ≡ path → b ≡ bytes)
      → Keeps (Free path bytes) (write_immutable p b)
  unfolding write_immutable
  Free-write_immutable p b same files h found e =
      ground (arith, contains_key-get p files, get-insert p path b files, h found, same)

  Has-written :
      (files : Files) (found : Option Bytes)
      → BTreeMap.get path files ≡ found
      → Free path bytes files
      → Has path bytes (write_immutable path bytes files).0
  unfolding write_immutable
  Has-written files none e h =
      ground (arith, contains_key-get path files, e, get-insert_self path bytes files)
  Has-written files (some b) e h =
      let same : b ≡ bytes = h b e in ground (arith, contains_key-get path files, e, same)

  Leads-write_immutable : Leads (Free path bytes) (Has path bytes) (write_immutable path bytes)
  Leads-write_immutable files h =
      OnSuccess-kept (Has path bytes) (write_immutable path bytes files)
        (Has-written files (BTreeMap.get path files) refl h)

-- The second component of a path.
object_of : FilePath → String
object_of (dir ∷ name ∷ path) = name
object_of _ = []

directory_of : FilePath → String
directory_of [] = []
directory_of (dir ∷ path) = dir

same_bytes :
    (json : Result Bytes String) (b bytes : Bytes) → json ≡ ok b → json ≡ ok bytes → b ≡ bytes
same_bytes json b bytes e h = cc

packs_apart : (name other : String) → packs_dir ++ (name ∷ []) ≢ commits_dir ++ (other ∷ [])
unfolding directory_of str
packs_apart name other same =
    let n : ◌≡◌ {A = ℕ} 5 7 = ap (λ path. length (directory_of path)) same in omega arith

indexes_apart : (name other : String) → indexes_dir ++ (name ∷ []) ≢ commits_dir ++ (other ∷ [])
unfolding directory_of str
indexes_apart name other same =
    let n : ◌≡◌ {A = ℕ} 12 7 = ap (λ path. length (directory_of path)) same in omega arith

module _ (f : Formats) (commit : Commit) (bytes : Bytes) where
  abbrev path : FilePath
  path = commit_path f commit.id

  -- A commit of this name is this one.
  abbrev Named : Commit → Type 0
  Named other = f.blake3 other.id ≡ f.blake3 commit.id → other ≡ commit

  module _ (written : f.commit_json commit ≡ ok bytes) where
    Free-store_commit :
        (other : Commit) → Named other → Keeps (Free path bytes) (store_commit f other)
    unfolding store_commit commit_path object_of
    Free-store_commit other named =
        Keeps-with_json (Free path bytes) (f.commit_json other) _ (λ b e.
          Free-write_immutable path bytes (commit_path f other.id) b (λ same.
            let n : f.blake3 other.id ≡ f.blake3 commit.id = ap object_of same in
            let c : other ≡ commit = named n in
            same_bytes (f.commit_json other) b bytes e (ap f.commit_json c ∙ written)))

    Leads-store_commit : Leads (Free path bytes) (Has path bytes) (store_commit f commit)
    unfolding store_commit
    Leads-store_commit files h = rw written (Leads-write_immutable path bytes files h)

    Leads-store_commits :
        (commits : List Commit)
        → ((other : Commit) → Memᴰ other commits → Named other)
        → Memᴰ commit commits
        → Leads (Free path bytes) (Has path bytes) (for_each (store_commit f) commits)
    unfolding for_each
    Leads-store_commits [] named listed = elim listed [ ]
    Leads-store_commits (other ∷ commits) named (Memᴰ.head same) =
        let first : Leads (Free path bytes) (Has path bytes) (store_commit f other) =
          rw (sym same) Leads-store_commit in
        Leads-then (Free path bytes) (Has path bytes) (store_commit f other) _ first
          (λ _. Keeps-for_each (Has path bytes) _ commits (Keeps-store_commit f path bytes))
    Leads-store_commits (other ∷ commits) named (Memᴰ.tail later) =
        Leads-after (Free path bytes) (Has path bytes) (store_commit f other) _
          (Free-store_commit other (named other (Memᴰ.head refl)))
          (λ _. Leads-store_commits commits (λ c m. named c (Memᴰ.tail m)) later)

    Free-elsewhere :
        {A : Type 0} (xs : List A) (p : A → FilePath) (b : A → Bytes)
        → ((x : A) → p x ≢ path)
        → Keeps (Free path bytes) (for_each (λ x. write_immutable (p x) (b x)) xs)
    Free-elsewhere xs p b away =
        Keeps-for_each (Free path bytes) _ xs
          (λ x. Free-write_immutable path bytes (p x) (b x) (λ same. elim (away x same) [ ]))

    Leads-commit_batch :
        (batch : CommitBatch)
        → ((other : Commit) → Memᴰ other batch.commits → Named other)
        → Memᴰ commit batch.commits
        → Leads (Free path bytes) (Has path bytes) (commit_batch f batch)
    unfolding commit_batch commit_path
    Leads-commit_batch batch named listed =
        Leads-after (Free path bytes) (Has path bytes) _ _
          (Free-elsewhere batch.packs (λ pack. packs_dir ++ (pack.id ∷ [])) (λ pack. pack.bytes)
            (λ pack. packs_apart pack.id (f.blake3 commit.id)))
          (λ _.
            Leads-after (Free path bytes) (Has path bytes) _ _
              (Free-elsewhere batch.indexes (λ index. indexes_dir ++ (index.id ∷ []))
                (λ index. index.bytes) (λ index. indexes_apart index.id (f.blake3 commit.id)))
              (λ _.
                Leads-then (Free path bytes) (Has path bytes) _ _
                  (Leads-store_commits batch.commits named listed)
                  (λ _.
                    Keeps-bind (Has path bytes) _ _
                      (Keeps-for_each (Has path bytes) _ (group_commits batch.commits [])
                        (Keeps-store_segment f path bytes))
                      (λ _. Keeps-return (Has path bytes) _))))

  module _ (files : Files) (read : f.commit_of bytes ≡ ok commit) (has : Has path bytes files) where
    found : read_file f files path ≡ ok bytes
    unfolding read_file
    found = rw (has, read_file) refl

    parsed : read_commit f files commit.id ≡ ok commit
    unfolding read_commit serde_result
    parsed = rw (found, read) refl

    loaded : load_commits f files (commit.id ∷ []) ≡ ok (commit ∷ [])
    unfolding load_commits traverse
    loaded = rw parsed refl

  -- A commit that a batch stores is loaded under its id, where the batch succeeds, if serde_json reads
  -- what it has written, no other bytes stood under the commit's name before, and no other commit of
  -- the batch has that name.
  pub load_commits-commit_batch :
      (batch : CommitBatch) (files : Files)
      → f.commit_json commit ≡ ok bytes
      → f.commit_of bytes ≡ ok commit
      → Free path bytes files
      → ((other : Commit) → Memᴰ other batch.commits → Named other)
      → Memᴰ commit batch.commits
      → OnSuccess
          (λ after. load_commits f after (commit.id ∷ []) ≡ ok (commit ∷ []))
          (commit_batch f batch files)
  load_commits-commit_batch batch files written read free named listed =
      OnSuccess-map (Has path bytes) _ (commit_batch f batch files)
        (λ after has. loaded after read has)
        (Leads-commit_batch written batch named listed files free)
