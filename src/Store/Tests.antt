-- ===== src/Store/Tests.antt =====
-- The theorem on the store, over databases that are the tables themselves.
use rollforward.Prelude.{
  refl, some, [], ◌∷◌, unwrap_or, sym, list_ord, nat_ord, inr, ap, String, ◌≡◌,
}
use rollforward.Collections.BTreeMap
use rollforward.Errors.{Result, ok, err}
use rollforward.Store.{Redb, RedbRuntimeStore, table}
use rollforward.Store.Laws.{Tables, table_in, RedbLaws}

-- A transaction is the tables that it began with and those with its changes.
abbrev tables : Redb
tables = record {
  Database = Tables;
  ReadTransaction = Tables;
  WriteTransaction = Tables × Tables;
  create = λ path. ok [];
  begin_read = λ db. ok db;
  read = λ t name key. ok (BTreeMap.get key (table_in name t));
  begin_write = λ db. ok (db, db);
  open_table =
      λ (base, pending) name. ok (base, BTreeMap.insert name (table_in name pending) pending);
  insert = λ (base, pending) name key value.
      ok (base, BTreeMap.insert name (BTreeMap.insert key value (table_in name pending)) pending);
  commit = λ (base, pending). (pending, ok tt);
  abort = λ (base, pending). base;
}

value_or : {A : Type 0} → A → Result A String → A
value_or other (ok value) = value
value_or other (err msg) = other

same_pair :
    (t u : Tables × Tables)
    → ◌≡◌ {A = Result (Tables × Tables) String} (ok t) (ok u)
    → (u.0 ≡ t.0) × (u.1 ≡ t.1)
unfolding value_or
same_pair t u e =
    let same : t ≡ u = ap (value_or t) e in (ap (λ v. v.0) (sym same), ap (λ v. v.1) (sym same))

tables-RedbLaws : RedbLaws tables
tables-RedbLaws = record {
  stored = λ db. db;
  base = λ t. t.0;
  pending = λ t. t.1;
  begins = λ db t. same_pair (db, db) t;
  opens = λ t u name. same_pair _ u;
  inserts = λ t u name key value. same_pair _ u;
  commits = λ t done. refl;
  fails = λ t msg failed. inr refl;
  aborts = λ t. refl;
  reads = λ db name rows has.
      (db, refl, λ key. ap (λ found. ok (BTreeMap.get key (unwrap_or [] found))) has);
}

abbrev empty : RedbRuntimeStore tables
empty = record { db = some ((table, []) ∷ []) }
