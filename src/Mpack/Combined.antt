-- ===== src/Mpack/Combined.antt =====
-- `pack` and `unpack` together, and the inputs on which `unpack` does not give back the value.
use lev.Mpack.Reader.Numbers.{from}
use lev.Mpack.Reader.Fronts.{fixmap}
use lev.Mpack.Pack.Correct.{pack-format}
use lev.Mpack.Writer.{capacity}
use lev.Mpack.RoundTrip.{IsReadable, read_back, unpack-format}
use lev.Mpack.Format.{IsData, format, string_format}
use lev.Mpack.Pack.{msgpack_pack_api, packed, pack_anytype}
use lev.Mpack.Reader.{
  Source, msgpack_unpack_api, unpack_anytype, err_in_map, unpack_from, unpacked, read_string, claim,
  unpack_map, view, unpack_fields, mprbuf_init, ok, InBlock, unpack_bytes,
}
use lev.Base.{
  ℕ, zero, suc, ◌+◌, ◌^◌, ◌<◌, ◌≡◌, refl, ◌∙◌, false, Option, some, List, [], ◌∷◌, ◌++◌, leb, arith,
  length, Bool-cases, inl, inr, append-nil, lt→ltb, length-append, ap,
}
use lev.Mpack.Value.{Value, Items, Fields, Conversions, string, table, item, buffer}

packed-injective : {a b : List ℕ} → packed a ≡ packed b → a ≡ b
packed-injective e = cc

-- What `pack` returns for a value, `unpack` reads to the last byte, and it gives `read_back` of the
-- value: the strings outside keys are slices, and a table with an array part has lost its pairs.
-- The value is data (`IsData`) and readable (`IsReadable`): its numbers are exact, its strings
-- shorter than 2^32 and not empty except as keys, its tables shorter than 2^31, with keys that Lua
-- takes and that differ once read, and with no nil as a value. The bytes lie in the block that is
-- read.
pub unpack-pack :
    (c : Conversions) (src : Source) (v : Value) (bs : List ℕ)
    → IsData v
    → IsReadable c (some src) false v
    → InBlock src (length bs)
    → msgpack_pack_api c v ≡ packed bs
    → msgpack_unpack_api c src bs ≡ some (ok (unpacked (length bs) (read_back (some src) false v)))
unpack-pack c src v bs h r inside e = elim (Bool-cases (leb (length (format c v)) capacity)) [
  | inl small ↦
      let same : packed (format c v) ≡ packed bs = cc ((pack-format c v h).0 (ground arith)) in
      let e' = packed-injective same in
      let len : length (format c v ++ []) ≡ length bs =
        omega (arith, length-append (format c v) [], ap length e') in
      rw (e', append-nil) at (unpack-format c src v [] r (inside.0, omega (arith, inside.1, len)))
  | inr large ↦ let (m, e') = (pack-format c v h).1 (ground arith) in cc
]

-- The pairs of a table that has an array part are not written.
pack-mixed_table :
    (c : Conversions) (v : Value) (vs : Items) (fs gs : Fields)
    → msgpack_pack_api c (table (item v vs) fs) ≡ msgpack_pack_api c (table (item v vs) gs)
unfolding msgpack_pack_api pack_anytype
pack-mixed_table c v vs fs gs = refl

-- An empty string reads as a slice of `whole` bytes of the block, from the byte behind the string on.
pub unpack-empty_string :
    (c : Conversions) (src : Source) (rest : List ℕ)
    → unpack_bytes c src (format c (string []) ++ rest)
      ≡ ok (unpacked 1 (buffer (view src.memory src.whole 1)))
unfolding unpack_bytes unpack_anytype unpack_from format string_format read_string claim
unpack-empty_string c src rest = refl

cut_map :
    (c : Conversions) (mb : Option Source) (n : ℕ)
    → suc n < 16
    → unpack_map (unpack_anytype c mb 1) (suc n) (from [] 1 false) ≡ err_in_map
unfolding unpack_anytype unpack_map unpack_fields
cut_map c mb n k = rw (lt→ltb (suc n) (2 ^ 31) (omega arith))

cut_map_value :
    (c : Conversions) (mb : Option Source) (n : ℕ)
    → suc n < 16
    → unpack_anytype c mb 2 (mprbuf_init ((128 + suc n) ∷ [])) ≡ err_in_map
cut_map_value c mb n k =
    unfold unpack_anytype in
    (fixmap c mb 1 [] 0 false (suc n) (from [] 1 false) k ∙ cut_map c mb n k)

-- A map of 1 to 15 pairs that is cut off behind its header sends the loop of `mprbuf_unpack_map` on
-- with nothing to set.
pub unpack-cut_map :
    (c : Conversions) (src : Source) (n : ℕ)
    → 0 < n
    → n < 16
    → unpack_bytes c src ((128 + n) ∷ []) ≡ err_in_map
unfolding unpack_bytes
unpack-cut_map c src zero h k = absurd (omega arith)
unpack-cut_map c src (suc n) h k = rw (cut_map_value c (some src) n k, unpack_bytes)
