-- ===== src/Store.antt =====
-- The runtime's durable store (src/v2_store.rs): one value in a redb database, and its closing.
pub mod Laws
pub mod Opening
pub mod Atomic
mod Tests
use rollforward.Prelude.{String, Bytes, Option, none, some, str}
use rollforward.Errors.{Result, ok, err, SyncError, io_error}

-- The calls of redb that the store makes, with the message of an error. `commit` gives the database as
-- it is then, whether it succeeds or fails, and `abort` is the drop of a transaction.
pub record Redb : Type 1 where
  pub Database : Type 0
  pub ReadTransaction : Type 0
  pub WriteTransaction : Type 0
  pub create : String → Result Database String
  pub begin_read : Database → Result ReadTransaction String
  pub read : ReadTransaction → String → String → Result (Option Bytes) String
  pub begin_write : Database → Result WriteTransaction String
  pub open_table : WriteTransaction → String → Result WriteTransaction String
  pub insert : WriteTransaction → String → String → Bytes → Result WriteTransaction String
  pub commit : WriteTransaction → Database × Result Unit String
  pub abort : WriteTransaction → Database

abbrev pub table : String
table = str "runtime_state_v2"

abbrev pub state_key : String
state_key = str "current"

-- `map_err(db_err)` at the end.
unfoldable pub db_result : {A : Type 0} → Result A String → Result A SyncError
db_result (ok a) = ok a
db_result (err msg) = err (io_error msg)

module _ (d : Redb) where
  -- `map_err(db_err)?` and what follows, with the database that an early return leaves.
  unfoldable pub and_then :
      {A B : Type 0}
      → Result A String
      → d.Database
      → (A → d.Database × Result B SyncError)
      → d.Database × Result B SyncError
  and_then (ok a) left next = next a
  and_then (err msg) left next = (left, err (io_error msg))

  unfoldable pub committed : d.WriteTransaction → d.Database × Result Unit SyncError
  unfolding db_result
  committed transaction = let (db, outcome) = d.commit transaction in (db, db_result outcome)

  -- `RedbRuntimeStore`.
  pub record RedbRuntimeStore : Type 0 where
    pub db : Option d.Database

  unfoldable pub create_table : d.Database → d.Database × Result Unit SyncError
  unfolding and_then committed
  create_table db =
      and_then (d.begin_write db) db
        (λ begun. and_then (d.open_table begun table) (d.abort begun) (λ opened. committed opened))

  abbrev pub with_table : d.Database × Result Unit SyncError → Result RedbRuntimeStore SyncError
  with_table (db, ok created) = ok (record { db = some db })
  with_table (db, err e) = err e

  unfoldable pub open_store : String → Result RedbRuntimeStore SyncError
  unfolding create_table
  open_store path = elim (d.create path) [
    | err msg ↦ err (io_error msg)
    | ok db ↦ with_table (create_table db)
  ]

  -- The store, with the database that the action leaves, and the action's outcome.
  unfoldable pub with_db :
      {A : Type 0}
      → RedbRuntimeStore
      → (d.Database → d.Database × Result A SyncError)
      → RedbRuntimeStore × Result A SyncError
  with_db store action = elim store.db [
    | none ↦ (store, err (io_error (str "runtime store is closed")))
    | some db ↦ let (db', outcome) = action db in (record { db = some db' }, outcome)
  ]

  unfoldable pub load_db : d.Database → d.Database × Result (Option Bytes) SyncError
  unfolding and_then db_result
  load_db db =
      and_then (d.begin_read db) db
        (λ transaction. (db, db_result (d.read transaction table state_key)))

  unfoldable pub load_runtime_state : RedbRuntimeStore → Result (Option Bytes) SyncError
  unfolding with_db load_db
  load_runtime_state store = (with_db store load_db).1

  unfoldable pub save_db : Bytes → d.Database → d.Database × Result Unit SyncError
  unfolding and_then committed
  save_db state db = and_then (d.begin_write db) db (λ begun.
      and_then (d.open_table begun table) (d.abort begun) (λ opened.
        and_then (d.insert opened table state_key state) (d.abort opened)
          (λ inserted. committed inserted)))

  unfoldable pub save_runtime_state :
      Bytes → RedbRuntimeStore → RedbRuntimeStore × Result Unit SyncError
  unfolding with_db save_db
  save_runtime_state state store = with_db store (save_db state)

  unfoldable pub close : RedbRuntimeStore → RedbRuntimeStore × Result Unit SyncError
  close store = (record { db = none }, ok tt)
