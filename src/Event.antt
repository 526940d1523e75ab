-- ===== src/Event.antt =====
-- internal/event: the errors, the envelope and the routing key of an event.
pub mod Errors
pub mod Types
pub mod Envelope
pub mod Affinity
pub mod Validation
pub mod Keys
mod Tests
