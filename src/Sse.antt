-- ===== src/Sse.antt =====
-- internal/handlers/sse.go and the parts of internal/hub/event_hub.go that it works on: who listens
-- to the events of a room and to the leaderboards of an event.
pub mod Delivery
pub mod Frames
pub mod Guilds
pub mod Rooms
pub mod Spectators
