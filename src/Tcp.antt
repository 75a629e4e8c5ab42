-- ===== src/Tcp.antt =====
-- TCP connections, src/lev_new_tcp.c.
pub mod Request
pub mod Frees
pub mod Owns
pub mod Socket
pub mod Lifetime
