-- ===== src/Link.antt =====
-- link.rs: one accepted connection of the server, with its reading and its writing task.
pub mod Read
pub mod Reads
pub mod Receive
pub mod Ends
pub mod Termination
pub mod Flags
pub mod Write
pub mod Written
pub mod Handshake
pub mod Opening
pub mod Race
pub mod Reports
pub mod Rely
pub mod Task
pub mod Tasks
