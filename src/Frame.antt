-- ===== src/Frame.antt =====
-- The directory frame/: the frames, their loaders and their encoders.
pub mod Error
pub mod Reason
pub mod StreamId
pub mod Head
pub mod Settings
pub mod Ping
pub mod Priority
pub mod Reset
pub mod GoAway
pub mod WindowUpdate
pub mod Data
pub mod Headers
pub mod BinCode
pub mod Any
