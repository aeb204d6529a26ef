-- ===== src/Types.antt =====
-- The records and enums of src/v2_types.rs.
mod Key
mod States
mod Conflict
mod Plan
mod Commits
mod Catalog
mod Local
mod Report
unfoldable pub use Key.*
unfoldable pub use States.*
unfoldable pub use Conflict.*
unfoldable pub use Plan.*
unfoldable pub use Commits.*
unfoldable pub use Catalog.*
unfoldable pub use Local.*
unfoldable pub use Report.*
