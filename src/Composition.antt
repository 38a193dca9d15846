-- ===== src/Composition.antt =====
-- The parts together: a client and a link of the server on the two ends of one connection.
pub mod Frames
pub mod Opening
pub mod Lifecycle
pub mod Shutdown
pub mod Application
pub mod Delivery
pub mod Endless
pub mod Greeting
pub mod Early
pub mod Many
pub mod Leaving
pub mod Life
pub mod Interleaving
pub mod Whole
pub mod Sending
pub mod Arriving
