-- ===== src/Executor/Containers.antt =====
-- internal/executor/container_manager.go: the pool of worker containers behind one mutex. The
-- Docker client is a parameter: what it answers, from a state of its own. A mutex that is locked
-- twice blocks its caller for good, so an operation returns `none` where it blocks.
mod Defs
pub mod Returns
pub mod Claim
pub mod Balance
pub mod Health
unfoldable pub use Defs.*
