-- ===== src/Types/Catalog.antt =====
-- The catalog of commits that the remote lists, and what is sent to it.
use rollforward.Prelude.{ℕ, String, Bytes, List}
use rollforward.Types.Key.{ResourceKey}
use rollforward.Types.Commits.{Commit}

pub record CatalogCursor : Type 0 where
  pub client_id : String
  pub scope_id : String
  pub counter : ℕ

pub record CatalogScanRequest : Type 0 where
  pub scopes : List String
  pub cursors : List CatalogCursor

pub record CatalogEvent : Type 0 where
  pub client_id : String
  pub counter : ℕ
  pub commit_id : String
  pub resource : ResourceKey

pub record CatalogDelta : Type 0 where
  pub events : List CatalogEvent
  pub cursors : List CatalogCursor
  pub snapshot_cursors : List CatalogCursor

pub record CatalogSnapshot : Type 0 where
  pub generation : ℕ
  pub scope_id : String
  pub events : List CatalogEvent
  pub cursors : List CatalogCursor

pub record CatalogCompaction : Type 0 where
  pub snapshot : CatalogSnapshot
  pub obsolete_commit_ids : List String

pub record PackObject : Type 0 where
  pub id : String
  pub bytes : Bytes

pub record PackIndexObject : Type 0 where
  pub id : String
  pub bytes : Bytes

pub record CommitBatch : Type 0 where
  pub commits : List Commit
  pub packs : List PackObject
  pub indexes : List PackIndexObject

pub record CommitBatchResult : Type 0 where
  pub visible_commits : List String

pub record ChunkLocation : Type 0 where
  pub hash : String
  pub pack_id : String
  pub offset : ℕ
  pub length : ℕ

pub record PackRange : Type 0 where
  pub hash : String
  pub pack_id : String
  pub offset : ℕ
  pub length : ℕ

pub record RangeData : Type 0 where
  pub hash : String
  pub bytes : Bytes

pub record ResourceAck : Type 0 where
  pub client_id : String
  pub resource : ResourceKey
  pub observed_heads : List String
  pub pinned_commits : List String
