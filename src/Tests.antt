-- ===== src/Tests.antt =====
-- Concrete runs, and the theorems at concrete inputs.
mod Auth
mod Delivery
mod Executor
mod Hub
mod Requests
mod Rounds
mod Routes
mod Sse
mod Startup
mod Support
mod Web
mod Workers
