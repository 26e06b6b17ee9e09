-- ===== src/Hub.antt =====
-- internal/hub/event_hub.go: the hub of a room, which takes the events of its channel one by one.
mod Exec
mod Defs
mod Submit
pub mod Ensures
pub mod Results
pub mod Scores
pub mod Joining
pub mod Sound
pub mod Accepted
pub mod Unrun
pub mod Posts
pub mod Drains
unfoldable pub use Exec.*
unfoldable pub use Submit.*
unfoldable pub use Defs.*
