-- ===== src/Types/Report.antt =====
-- Requests, reports and events of the runtime.
use rollforward.Prelude.{ℕ, ℤ, Bool, String, Option, List}
use rollforward.Types.Key.{ResourceKey}

pub record SyncRequest : Type 0 where
  pub scopes : List String

pub data ScopeStatus : Type 0 where
  complete partial blocked failed : ScopeStatus

pub record ScopeReport : Type 0 where
  pub scope_id : String
  pub status : ScopeStatus
  pub conflicts : ℕ
  pub failures : ℕ

pub record SyncReport : Type 0 where
  pub run_id : String
  pub uploaded : ℕ
  pub downloaded : ℕ
  pub deleted_remote : ℕ
  pub deleted_local : ℕ
  pub unchanged : ℕ
  pub conflicts : ℕ
  pub failures : ℕ
  pub scopes : List ScopeReport

pub record ConflictQuery : Type 0 where
  pub scope_id : Option String

pub data VersionChoice : Type 0 where
  local delete : VersionChoice
  remote : (commit_id : String) → VersionChoice

pub record PreservedVersion : Type 0 where
  pub source : VersionChoice
  pub target : ResourceKey

pub record ResolveConflictRequest : Type 0 where
  pub conflict_id : String
  pub primary : VersionChoice
  pub preserved : List PreservedVersion

pub record VersionRecord : Type 0 where
  pub commit_id : String
  pub parents : List String
  pub timestamp : ℤ
  pub author : String
  pub deleted : Bool

pub record RollbackRequest : Type 0 where
  pub resource : ResourceKey
  pub commit_id : String

pub record MaintenanceRequest : Type 0 where
  pub scopes : List String
  pub history_retention_versions : ℕ

pub record V2MaintenanceReport : Type 0 where
  pub resources : ℕ
  pub commits_deleted : ℕ
  pub deferred : ℕ
  pub packs_deleted : ℕ
  pub packs_repacked : ℕ
  pub bytes_reclaimed : ℕ

pub record EngineEvent : Type 0 where
  pub run_id : String
  pub operation_id : String
  pub stage : String
  pub resource : Option ResourceKey
  pub detail_json : String
