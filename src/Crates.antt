-- ===== src/Crates.antt =====
-- The packages that the program calls and that are not in the repository, each as a record: the
-- operations that the program uses, and the behaviour that their documentation promises.
pub mod Bitflags
pub mod BytesMut
pub mod TcpStream
pub mod Channel
pub mod Httparse
