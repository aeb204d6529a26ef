-- ===== src/Collections.antt =====
-- The standard collections that the engine uses: `BTreeMap` and `BTreeSet`.
pub mod BTreeMap
pub mod BTreeSet
pub mod Sort
pub mod Keys
