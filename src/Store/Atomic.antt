-- ===== src/Store/Atomic.antt =====
-- A saving of the runtime's store (src/v2_store.rs) takes place as a whole, or not at all.
use rollforward.Prelude.{String, Bytes, ◌≡◌, ◌⊎◌, Option, some, list_eq, nat_eq, list_ord, nat_ord}
use rollforward.Collections.BTreeMap
use rollforward.Collections.BTreeMap.{BTreeMap}
use rollforward.Errors.{Result, ok, err, SyncError}
use rollforward.Store.{Redb, RedbRuntimeStore, table, state_key, load_runtime_state}
use rollforward.Store.Laws.{RedbLaws}

module _ {d : Redb} (laws : RedbLaws d) where
  -- The database has the table, with this value under the state's key.
  abbrev Holds : Option Bytes → d.Database → Type 0
  Holds value db =
      (rows : BTreeMap String Bytes) × (BTreeMap.get table (laws.stored db) ≡ some rows)
      × (BTreeMap.get state_key rows ≡ value)

  -- What a load gives after a saving, by the outcome.
  abbrev pub Saved :
      Bytes → RedbRuntimeStore d → RedbRuntimeStore d × Result Unit SyncError → Type 0
  Saved state before (after, ok value) = load_runtime_state d after ≡ ok (some state)
  Saved state before (after, err e) =
      (load_runtime_state d after ≡ load_runtime_state d before)
      ⊎ (load_runtime_state d after ≡ ok (some state))

  abbrev opened : d.Database → RedbRuntimeStore d
  opened db = record { db = some db }

  module _ (state : Bytes) (db : d.Database) where
    -- On an error, the tables are as they were, or the value is there all the same.
    abbrev Stored : d.Database × Result Unit SyncError → Type 0
    Stored (after, ok value) = Holds (some state) after
    Stored (after, err e) = (laws.stored after ≡ laws.stored db) ⊎ Holds (some state) after

    -- The changes of the saving.
    Written : d.WriteTransaction → Type 0
    Written t =
        (laws.base t ≡ laws.stored db)
        × (rows : BTreeMap String Bytes) × (BTreeMap.get table (laws.pending t) ≡ some rows)
        × (BTreeMap.get state_key rows ≡ some state)
