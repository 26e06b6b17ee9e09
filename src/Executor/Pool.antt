-- ===== src/Executor/Pool.antt =====
-- internal/executor/worker_pool.go: the queue of jobs and their execution in a container.
mod Defs
pub mod Verdict
pub mod Reply
pub mod Quoting
pub mod Workers
unfoldable pub use Defs.*
