-- ===== src/Broker.antt =====
-- broker/: the message and its codec, deliveries and retries, and the http broker.
pub mod Message
pub mod Delivery
pub mod Publish
pub mod Http
pub mod Connection
