-- ===== src/Json.antt =====
-- The JSON codec, src/lev_new_json.c.
pub mod Value
pub mod Config
pub mod Strbuf
pub mod Strings
pub mod Token
pub mod Decode
pub mod Encode
pub mod Document
pub mod RoundTrip
