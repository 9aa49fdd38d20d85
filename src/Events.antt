-- ===== src/Events.antt =====
-- src/modules/events: the queue of events and the websockets.
pub mod Client
pub mod Consumer
pub mod Example
pub mod Filter
pub mod Guard
pub mod Handler
pub mod Laws
pub mod Producer
pub mod Server
mod Tests
