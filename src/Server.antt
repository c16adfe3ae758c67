-- ===== src/Server.antt =====
-- server.go, context.go, service.go and sub.go: the server.
pub mod Route
pub mod Rpc
pub mod Register
pub mod Subscribe
pub mod PubSub
pub mod Lifecycle
pub mod Setup
pub mod Logging
pub mod Tests
