-- ===== src/Requests.antt =====
-- internal/handlers/events.go: requests for events, and their approval.
mod Queries
mod Defs
pub mod Reads
pub mod Forms
pub mod Lists
mod Made
pub mod Listed
mod Statements
pub mod Approval
pub mod Once
unfoldable pub use Queries.*
unfoldable pub use Defs.*
