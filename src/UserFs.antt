-- ===== src/UserFs.antt =====
-- hw3/userfs.c: an in-memory file system with files made of blocks.
pub mod Block
pub mod State
pub mod Open
pub mod Transfer
pub mod Close
pub mod Resize
pub mod Links
mod Tests
