-- ===== src/Server.antt =====
-- Package main, main.go and docker_events.go, and package lib/status.
pub mod Healthcheck
pub mod Handlers
pub mod Docker
pub mod Status
pub mod App
pub mod Process
pub mod Tests
