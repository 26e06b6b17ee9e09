-- ===== src/Executor.antt =====
-- internal/executor: the languages, the sanitizer, the code builder, the containers and the workers.
pub mod Languages
pub mod Sanitize
pub mod Packages
pub mod Builder
pub mod Containers
pub mod Pool
