-- ===== src/Mpack/Format/Lengths.antt =====
-- The lengths of the formats.
use lev.Mpack.Format.Numbers.{number_bytes_lem}
use lev.Base.Int.{ℤ, pos, negsuc}
use lev.Mpack.Format.{
  format, size_format, string_format, IsData, format_items, format_fields, number_format,
}
use lev.Mpack.Writer.{number_bytes, integer_bytes}
use lev.Base.{
  ℕ, suc, ◌<◌, ◌++◌, arith, length, length-append, List, Bool, ◌≡◌, false, true, refl, sym,
}
use lev.Mpack.Value.{
  nil, no_items, Conversions, Number, Value, boolean, integer, number, string, buffer, table,
  double, item, items_length, fields_length, light_userdata, function, userdata, thread, cdata,
}

bytes_pos : (c : Conversions) (n : Number) → 0 < length (number_bytes c n)
unfolding number_bytes
bytes_pos c (integer z) = integer_pos (c.to_long_long z)
  where
    integer_pos : (z : ℤ) → 0 < length (integer_bytes z)
    integer_pos (pos n) = ground arith
    integer_pos (negsuc n) = ground arith
bytes_pos c (double w) = ground arith

number_pos : (c : Conversions) (n : Number) → 0 < length (number_format c n)
number_pos c n = rw (sym (number_bytes_lem c n)) (bytes_pos c n)

string_pos : (s : List ℕ) → 0 < length (string_format s)
unfolding string_format
string_pos s = ground arith

pub size_pos : (fix tag16 tag32 l : ℕ) → 0 < length (size_format fix tag16 tag32 l)
unfolding size_format
size_pos fix tag16 tag32 l = ground arith

-- The values that the writer refuses.
abbrev pub is_foreign : Value → Bool
is_foreign light_userdata = true
is_foreign function = true
is_foreign userdata = true
is_foreign thread = true
is_foreign cdata = true
is_foreign _ = false

pub data-IsKnown : (v : Value) → IsData v → is_foreign v ≡ false
unfolding IsData
data-IsKnown light_userdata h = absurd h
data-IsKnown function h = absurd h
data-IsKnown userdata h = absurd h
data-IsKnown thread h = absurd h
data-IsKnown cdata h = absurd h
data-IsKnown _ h = refl

-- The format of any other value is not empty.
pub format_pos : (c : Conversions) (v : Value) → is_foreign v ≡ false → 0 < length (format c v)
unfolding format
format_pos c nil h = omega arith
format_pos c (boolean i) h = omega arith
format_pos c (number n) h = number_pos c n
format_pos c (string s) h = string_pos s
format_pos c (buffer s) h = string_pos s
format_pos c (table (item v vs) fs) h =
    let l = suc (items_length vs) in
    omega (
      arith,
      size_pos 144 0xdc 0xdd l,
      length-append (size_format 144 0xdc 0xdd l) (format c v ++ format_items c vs),
    )
format_pos c (table no_items fs) h =
    let l = fields_length fs in
    omega (
      arith,
      size_pos 128 0xde 0xdf l,
      length-append (size_format 128 0xde 0xdf l) (format_fields c fs),
    )
format_pos c light_userdata h = cc
format_pos c function h = cc
format_pos c userdata h = cc
format_pos c thread h = cc
format_pos c cdata h = cc
