-- ===== src/Folder/Keeps.antt =====
-- What calls on the folder (src/v2_remote.rs) keep of its files.
use rollforward.Prelude.{String, Bytes, ◌≡◌, refl, some, List, [], ◌∷◌, arith, list_ord, nat_ord}
use rollforward.Collections.BTreeMap
use rollforward.Collections.BTreeMap.Laws.{get-insert_ne, contains_key-get}
use rollforward.Errors.{Result, ok, err, SyncError}
use rollforward.Runtime.Action.{Call}
use rollforward.Folder.{
  FilePath, Files, followed_by, ◌>>=◌, return, with_json, for_each, write_immutable,
}

-- The file at the path has these bytes.
abbrev pub Has : FilePath → Bytes → Files → Type 0
Has path bytes files = BTreeMap.get path files ≡ some bytes

abbrev pub Keeps : (Files → Type 0) → {A : Type 0} → Call Files A → Type 0
Keeps H call = (files : Files) → H files → H (call files).0

pub Keeps-write_immutable :
    (path : FilePath) (bytes : Bytes) (p : FilePath) (b : Bytes)
    → Keeps (Has path bytes) (write_immutable p b)
unfolding write_immutable
Keeps-write_immutable path bytes p b files h =
    ground (arith, contains_key-get p files, get-insert_ne p path b files)

module _ (H : Files → Type 0) where
  Keeps-followed_by :
      {A B : Type 0} (next : A → Call Files B) (done : Files × Result A SyncError)
      → ((a : A) → Keeps H (next a))
      → H done.0
      → H (followed_by next done).0
  Keeps-followed_by next (files, ok value) k h = k value files h
  Keeps-followed_by next (files, err e) k h = h

  pub Keeps-bind :
      {A B : Type 0} (first : Call Files A) (next : A → Call Files B)
      → Keeps H first
      → ((a : A) → Keeps H (next a))
      → Keeps H (first >>= next)
  unfolding ◌>>=◌
  Keeps-bind first next h k files e = Keeps-followed_by next (first files) k (h files e)

  pub Keeps-return : {A : Type 0} (value : A) → Keeps H (return value)
  unfolding return
  Keeps-return value files e = e

  pub Keeps-for_each :
      {A : Type 0} (body : A → Call Files Unit) (xs : List A)
      → ((a : A) → Keeps H (body a))
      → Keeps H (for_each body xs)
  unfolding for_each
  Keeps-for_each body [] h = Keeps-return tt
  Keeps-for_each body (x ∷ xs) h =
      Keeps-bind (body x) (λ _. for_each body xs) (h x) (λ _. Keeps-for_each body xs h)

  pub Keeps-with_json :
      (json : Result Bytes String) (next : Bytes → Call Files Unit)
      → ((b : Bytes) → json ≡ ok b → Keeps H (next b))
      → Keeps H (with_json json next)
  Keeps-with_json (err msg) next h files e = e
  Keeps-with_json (ok b) next h files e = h b refl files e

-- What holds of the files where a call succeeds.
abbrev pub OnSuccess : (Files → Type 0) → {A : Type 0} → Files × Result A SyncError → Type 0
OnSuccess H (files, ok value) = H files
OnSuccess H (files, err e) = Unit

-- A call that leads from files of one kind to files of another, where it succeeds.
abbrev pub Leads : (Files → Type 0) → (Files → Type 0) → {A : Type 0} → Call Files A → Type 0
Leads H K call = (files : Files) → H files → OnSuccess K (call files)

pub OnSuccess-map :
    (H K : Files → Type 0) {A : Type 0} (done : Files × Result A SyncError)
    → ((files : Files) → H files → K files)
    → OnSuccess H done
    → OnSuccess K done
OnSuccess-map H K (files, ok value) f h = f files h
OnSuccess-map H K (files, err e) f h = tt

pub OnSuccess-kept :
    (K : Files → Type 0) {B : Type 0} (done : Files × Result B SyncError)
    → K done.0
    → OnSuccess K done
OnSuccess-kept K (files, ok value) h = h
OnSuccess-kept K (files, err e) h = tt

module _ (H K : Files → Type 0) {A B : Type 0} where
  Leads-after-followed_by :
      (next : A → Call Files B) (done : Files × Result A SyncError)
      → ((a : A) → Leads H K (next a))
      → H done.0
      → OnSuccess K (followed_by next done)
  Leads-after-followed_by next (files, ok value) k h = k value files h
  Leads-after-followed_by next (files, err e) k h = tt

  -- The first call keeps the files as they are to be, and the second leads on.
  pub Leads-after :
      (first : Call Files A) (next : A → Call Files B)
      → Keeps H first
      → ((a : A) → Leads H K (next a))
      → Leads H K (first >>= next)
  unfolding ◌>>=◌
  Leads-after first next h k files e = Leads-after-followed_by next (first files) k (h files e)

  Leads-then-followed_by :
      (next : A → Call Files B) (done : Files × Result A SyncError)
      → ((a : A) → Keeps K (next a))
      → OnSuccess K done
      → OnSuccess K (followed_by next done)
  Leads-then-followed_by next (files, ok value) k h =
      OnSuccess-kept K (next value files) (k value files h)
  Leads-then-followed_by next (files, err e) k h = tt

  -- The first call leads there, and the second stays there.
  pub Leads-then :
      (first : Call Files A) (next : A → Call Files B)
      → Leads H K first
      → ((a : A) → Keeps K (next a))
      → Leads H K (first >>= next)
  unfolding ◌>>=◌
  Leads-then first next h k files e = Leads-then-followed_by next (first files) k (h files e)
