-- ===== src/Examples/Values.antt =====
-- MessagePack: runs of the writer and the reader of src/lev_mpack.c.
use lev.Mpack.Unpacker.Feeding.{feed-append}
use lev.Mpack.Pack.Correct.{pack-format}
use Prim.Native.String.{String}
use lev.Mpack.Unpacker.Bounds.{IsBounded, feed_loop-enough, feed-IsBounded}
use lev.Mpack.Unpacker.{
  feed_loop, unpacker_init, unpacker_feed, Unpacker, raw, feed_round, round_for,
  container_needs_bytes, feed_value, unpacker_push, unpacker_progress_datasize, progress_top,
}
use lev.Mpack.Reader.Total.{Ends, Within, unpack-total}
use lev.Base.{ℕ, ◌<◌, ◌≤◌, ◌≡◌, refl, true, false, some, List, [], ◌∷◌, ◌++◌, arith, length}
use lev.Base.Int.{pos, negsuc}
use lev.Base.Bytes.{to_be}
use lev.Mpack.Value.{
  Value, Conversions, integer, double, boolean, number, string, buffer, table, item, no_items,
  no_fields, field,
}
use lev.Mpack.Writer.{
  mpwbuf_append, ◌then_add◌, write_nothing, pack_boolean, pack_number, number_bytes, pack_string,
  pack_size, capacity,
}
use lev.Mpack.Pack.{pack_anytype, msgpack_pack_api, packed, error}
use lev.Mpack.Format.{
  format, IsData, number_format, integer_format, natural_format, negative_format, size_format,
  string_format,
}
use lev.Mpack.Reader.{
  Source, msgpack_unpack_api, ok, unpacked, Result, Unpacked, InBlock, same_key, same_text,
}
use lev.Mpack.RoundTrip.{IsReadable, read_back, unpack-format}
use lev.Mpack.Combined.{unpack-pack}

-- Conversions that lose nothing, and a block of zeros.
abbrev exact : Conversions
exact = record {
  to_long_long = λ z. z;
  of_long_long = integer;
  of_double = double;
  of_float = double;
}

abbrev zeros : Source
zeros = record { whole = 1024; memory = λ i. 0; slice = 0; size = 1024 }

-- { a = { 7, true }, [-300] = <a buffer of two bytes> }
abbrev sample : Value
sample = table no_items (
    field (string (97 ∷ []))
      (table (item (number (integer (pos 7))) (item (boolean true) no_items)) no_fields)
      (field (number (integer (negsuc 299))) (buffer (1 ∷ 2 ∷ [])) no_fields))

abbrev sample_bytes : List ℕ
sample_bytes = 0x82 ∷ 0xa1 ∷ 97 ∷ 0x92 ∷ 7 ∷ 0xc3 ∷ 0xd1 ∷ 0xfe ∷ 0xd4 ∷ 0xa2 ∷ 1 ∷ 2 ∷ []

sample-packed : msgpack_pack_api exact sample ≡ packed sample_bytes
unfolding msgpack_pack_api pack_anytype pack_size pack_string pack_number pack_boolean ◌then_add◌
    mpwbuf_append write_nothing number_bytes to_be
sample-packed = refl

sample-IsData : IsData sample
unfolding IsData
sample-IsData = omega arith

sample-IsReadable : IsReadable exact (some zeros) false sample
unfolding IsReadable read_back same_key same_text
sample-IsReadable = ground arith

unpack-pack_example :
    msgpack_unpack_api exact zeros sample_bytes
    ≡ some (ok (unpacked 12 (read_back (some zeros) false sample)))
unpack-pack_example =
    unpack-pack exact zeros sample sample_bytes sample-IsData sample-IsReadable
      (omega arith, ground arith) sample-packed

pack-format_example :
    (length (format exact (string (97 ∷ []))) ≤ capacity
      → msgpack_pack_api exact (string (97 ∷ [])) ≡ packed (format exact (string (97 ∷ []))))
    × (capacity < length (format exact (string (97 ∷ [])))
        → (m : String) × (msgpack_pack_api exact (string (97 ∷ [])) ≡ error m))
pack-format_example = pack-format exact (string (97 ∷ [])) (unfold IsData in tt)

sample_inside : InBlock zeros (length (format exact sample ++ 0xc0 ∷ []))
unfolding format number_format integer_format natural_format negative_format size_format
    string_format to_be
sample_inside = (omega arith, omega arith)

unpack-format_example :
    msgpack_unpack_api exact zeros (format exact sample ++ 0xc0 ∷ [])
    ≡ some (ok (unpacked (length (format exact sample)) (read_back (some zeros) false sample)))
unpack-format_example = unpack-format exact zeros sample (0xc0 ∷ []) sample-IsReadable sample_inside

unpack-total_example :
    (r : Result Unpacked) × (msgpack_unpack_api exact zeros (0xcd ∷ 1 ∷ 2 ∷ []) ≡ some r)
    × Ends (Within 3) r
unpack-total_example = unpack-total exact zeros (0xcd ∷ 1 ∷ 2 ∷ []) (omega arith, omega arith)

fresh-IsBounded : IsBounded (unpacker_init 64)
unfolding unpacker_init
fresh-IsBounded = omega arith

feed-IsBounded_example : IsBounded (unpacker_feed (unpacker_init 64) sample_bytes).0
feed-IsBounded_example = feed-IsBounded (unpacker_init 64) sample_bytes fresh-IsBounded

feed_loop-enough_example :
    feed_loop 12 sample_bytes (unpacker_init 64) ≡ feed_loop 100 sample_bytes (unpacker_init 64)
feed_loop-enough_example =
    feed_loop-enough 12 100 sample_bytes (unpacker_init 64) (omega arith) (omega arith)
      (unfold unpacker_init in omega arith)

-- A string of three bytes, cut inside of its data.
abbrev half : Unpacker
half = record {
  buf = 0xa3 ∷ 1 ∷ [];
  size = 64;
  stack = record { t = raw; expect = 3; sofar = 1; sizebytes = []; sizesize = 0 } ∷ [];
  resultnum = 0;
}

half_fed : unpacker_feed (unpacker_init 64) (0xa3 ∷ 1 ∷ []) ≡ (half, true)
unfolding unpacker_feed unpacker_init feed_loop feed_round round_for container_needs_bytes
    feed_value unpacker_push unpacker_progress_datasize progress_top
half_fed = refl

feed-append_example :
    unpacker_feed (unpacker_init 64) (0xa3 ∷ 1 ∷ 2 ∷ 3 ∷ []) ≡ unpacker_feed half (2 ∷ 3 ∷ [])
unfolding unpacker_init
feed-append_example =
    feed-append (unpacker_init 64) half (0xa3 ∷ 1 ∷ []) (2 ∷ 3 ∷ []) fresh-IsBounded (omega arith)
      half_fed
