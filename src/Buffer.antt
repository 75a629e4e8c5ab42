-- ===== src/Buffer.antt =====
-- Buffers, src/lev_new_buffer.c: slices of memory blocks.
pub mod Memory
pub mod Slice
pub mod Bytes
pub mod Methods
pub mod Concat
pub mod Access
pub mod RoundTrip
pub mod Search
pub mod Slices
