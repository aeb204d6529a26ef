-- ===== src/Store/Opening.antt =====
-- The opening of the runtime's store (src/v2_store.rs).
use rollforward.Prelude.{
  String, Bytes, ◌≡◌, refl, ◌∙◌, ap, some, list_eq, nat_eq, list_ord, nat_ord,
}
use rollforward.Collections.BTreeMap
use rollforward.Collections.BTreeMap.{BTreeMap}
use rollforward.Collections.BTreeMap.Laws.{get-insert_self}
use rollforward.Errors.{Result, ok, err, SyncError, io_error}
use rollforward.Store.{
  Redb, RedbRuntimeStore, table, committed, db_result, create_table, with_table, open_store,
}
use rollforward.Store.Laws.{table_in, RedbLaws, and_then-cases, IsReady}

module _ {d : Redb} (laws : RedbLaws d) where
  abbrev Opened : Result (RedbRuntimeStore d) SyncError → Type 0
  Opened (ok store) = IsReady laws store
  Opened (err e) = Unit

  committed-Opened :
      (t : d.WriteTransaction) (rows : BTreeMap String Bytes)
      → BTreeMap.get table (laws.pending t) ≡ some rows
      → Opened (with_table d (committed d t))
  unfolding committed db_result
  committed-Opened t rows has = by_outcome (d.commit t).1 refl
    where
      by_outcome :
          (outcome : Result Unit String)
          → (d.commit t).1 ≡ outcome
          → Opened (with_table d ((d.commit t).0, db_result outcome))
      by_outcome (ok done) e = (rows, ap (BTreeMap.get table) (laws.commits t e) ∙ has)
      by_outcome (err msg) e = tt

  created-Opened : (db : d.Database) → Opened (with_table d (create_table d db))
  unfolding create_table
  created-Opened db =
      and_then-cases d (λ done. Opened (with_table d done)) (d.begin_write db) db _ (λ msg e. tt)
        (λ begun b.
          and_then-cases d (λ done. Opened (with_table d done)) (d.open_table begun table)
            (d.abort begun) _ (λ msg e. tt)
            (λ opened o.
              let (_, made) = laws.opens begun opened table o in
              committed-Opened opened (table_in table (laws.pending begun)) (
                ap (BTreeMap.get table) made
                ∙ get-insert_self table (table_in table (laws.pending begun))
                    (laws.pending begun))))

  -- A store that opens is ready.
  open_store-IsReady : (path : String) → Opened (open_store d path)
  unfolding open_store
  open_store-IsReady path = by_outcome (d.create path)
    where
      by_outcome :
          (created : Result d.Database String)
          → Opened (elim created [
            | err msg ↦ err (io_error msg)
            | ok db ↦ with_table d (create_table d db)
          ])
      by_outcome (err msg) = tt
      by_outcome (ok db) = created-Opened db
