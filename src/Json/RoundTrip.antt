-- ===== src/Json/RoundTrip.antt =====
-- `json_encode` and `json_decode` together.
use lev.Json.Encode
use lev.Json.Document.{Json}
