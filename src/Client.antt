-- ===== src/Client.antt =====
-- client.rs: a client's connection.
pub mod Read
pub mod Receive
pub mod Forward
pub mod Forwarded
pub mod Termination
pub mod Write
pub mod Written
pub mod Handshake
pub mod Opening
pub mod Flags
pub mod Marks
pub mod Mantain
pub mod Announced
pub mod Mantained
pub mod Shutdown
pub mod Delay
pub mod Spawn
pub mod Task
pub mod Sides
pub mod Tasks
