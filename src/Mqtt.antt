-- ===== src/Mqtt.antt =====
-- app/mqtt: topic and payload of a message, its handling, and the subscriber's loop.
pub mod Topic
pub mod Payload
pub mod Handler
pub mod Client
pub mod Task
