-- ===== src/Fs.antt =====
-- The file system, src/lev_new_fs.c.
pub mod Modes
pub mod Permission
pub mod Results
pub mod Names
pub mod Calls
pub mod Request
pub mod Delivery
