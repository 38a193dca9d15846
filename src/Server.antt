-- ===== src/Server.antt =====
-- server.rs: the table of the links and the loop that forwards transactions to the application.
pub mod Table
pub mod Forward
pub mod Accept
pub mod Accepted
pub mod View
pub mod Agreement
pub mod Calls
pub mod Reply
pub mod Handled
pub mod Isolation
pub mod Outgoing
pub mod Confined
pub mod Served
pub mod Tokens
pub mod Listed
