-- ===== src/Io.antt =====
-- protocol/src/io: the two halves of an exec connection.
pub mod Writer
pub mod Tx
pub mod Rx
pub mod Wire
pub mod Messages
pub mod ArcErr
