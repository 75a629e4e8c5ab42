-- ===== src/Mpack.antt =====
-- MessagePack, src/lev_mpack.c: the values, the writer (`pack`), the reader (`unpack`) and the
-- incremental `unpacker_t`.
pub mod Value
pub mod Writer
pub mod Format
pub mod Pack
pub mod Reader
pub mod RoundTrip
pub mod Combined
pub mod Unpacker
