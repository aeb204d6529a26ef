-- ===== src/Store/Laws.antt =====
-- What redb promises to the runtime's store (src/v2_store.rs).
use rollforward.Prelude.{
  String, Bytes, ◌≡◌, refl, ◌⊎◌, none, some, [], unwrap_or, list_eq, nat_eq, list_ord, nat_ord,
}
use rollforward.Collections.BTreeMap
use rollforward.Collections.BTreeMap.{BTreeMap}
use rollforward.Errors.{Result, ok, err, SyncError, io_error}
use rollforward.Store.{Redb, RedbRuntimeStore, table, and_then}

-- The tables of a database, each a map from keys to values.
abbrev pub Tables : Type 0
Tables = BTreeMap String (BTreeMap String Bytes)

abbrev pub table_in : String → Tables → BTreeMap String Bytes
table_in name tables = unwrap_or [] (BTreeMap.get name tables)

-- What redb promises of its transactions. A write transaction has the tables that it began with and
-- the tables with its changes. Opening a table makes it where it is not there. A commit that succeeds
-- stores the changes, one that fails stores all of them or none, and a transaction that is dropped
-- stores none. A table that is stored can be read.
pub record RedbLaws (d : Redb) : Type 0 where
  pub stored : d.Database → Tables
  pub base : d.WriteTransaction → Tables
  pub pending : d.WriteTransaction → Tables
  pub begins :
      (db : d.Database) (t : d.WriteTransaction)
      → d.begin_write db ≡ ok t
      → (base t ≡ stored db) × (pending t ≡ stored db)
  pub opens :
      (t u : d.WriteTransaction) (name : String)
      → d.open_table t name ≡ ok u
      → (base u ≡ base t)
        × (pending u ≡ BTreeMap.insert name (table_in name (pending t)) (pending t))
  pub inserts :
      (t u : d.WriteTransaction) (name key : String) (value : Bytes)
      → d.insert t name key value ≡ ok u
      → (base u ≡ base t)
        × (pending u
            ≡ BTreeMap.insert name
                (BTreeMap.insert key value (table_in name (pending t)))
                (pending t))
  pub commits :
      (t : d.WriteTransaction) → (d.commit t).1 ≡ ok tt → stored (d.commit t).0 ≡ pending t
  pub fails :
      (t : d.WriteTransaction) (msg : String)
      → (d.commit t).1 ≡ err msg
      → (stored (d.commit t).0 ≡ base t) ⊎ (stored (d.commit t).0 ≡ pending t)
  pub aborts : (t : d.WriteTransaction) → stored (d.abort t) ≡ base t
  pub reads :
      (db : d.Database) (name : String) (rows : BTreeMap String Bytes)
      → BTreeMap.get name (stored db) ≡ some rows
      → (t : d.ReadTransaction) × (d.begin_read db ≡ ok t)
        × ((key : String) → d.read t name key ≡ ok (BTreeMap.get key rows))

module _ (d : Redb) where
  pub and_then-cases :
      {A B : Type 0} (P : d.Database × Result B SyncError → Type 0) (r : Result A String)
      (left : d.Database) (next : A → d.Database × Result B SyncError)
      → ((msg : String) → r ≡ err msg → P (left, err (io_error msg)))
      → ((a : A) → r ≡ ok a → P (next a))
      → P (and_then d r left next)
  unfolding and_then
  and_then-cases P (ok a) left next failed done = done a refl
  and_then-cases P (err msg) left next failed done = failed msg refl

module _ {d : Redb} (laws : RedbLaws d) where
  -- The store is closed, or its table is there.
  abbrev pub IsReady : RedbRuntimeStore d → Type 0
  IsReady store = elim store.db [
    | none ↦ Unit
    | some db ↦ (rows : BTreeMap String Bytes) × (BTreeMap.get table (laws.stored db) ≡ some rows)
  ]
