-- ===== src/Mpack/Format.antt =====
-- The MessagePack format as the writer uses it, without its code: the bytes of a value, with no buffer
-- and no limits.
pub mod Lengths
pub mod Numbers
use lev.Base.{ℕ, suc, ◌+◌, List, [], ◌∷◌, ◌++◌, ltb, if◌then◌else◌, length, ◌<◌, ◌^◌, ◌-◌}
use lev.Base.Bytes.{to_be}
use lev.Base.Int.{ℤ, pos, negsuc}
use lev.Mpack.Value.{
  Value, Items, Fields, nil, boolean, number, string, buffer, table, light_userdata, function,
  userdata, thread, cdata, no_items, item, no_fields, field, items_length, fields_length,
  Conversions, Number, is_inf, integer, is_positive, double, is_nan,
}

-- A natural number in the shortest form: the number itself in 7 bits, or a tag and 1, 2, 4 or 8 bytes.
unfoldable pub natural_format : ℕ → List ℕ
natural_format n =
    if ltb n (2 ^ 7)
    then to_be 1 n
    else if ltb n (2 ^ 8)
    then 0xcc ∷ to_be 1 n
    else if ltb n (2 ^ 16)
    then 0xcd ∷ to_be 2 n
    else if ltb n (2 ^ 32)
    then 0xce ∷ to_be 4 n
    else 0xcf ∷ to_be 8 n

-- The negative number -(m + 1) in the shortest form, in two's complement: above -33 in one byte, or
-- a tag and 1, 2, 4 or 8 bytes.
unfoldable pub negative_format : ℕ → List ℕ
negative_format m =
    if ltb m 32
    then to_be 1 (2 ^ 8 - 1 - m)
    else if ltb m (2 ^ 7)
    then 0xd0 ∷ to_be 1 (2 ^ 8 - 1 - m)
    else if ltb m (2 ^ 15)
    then 0xd1 ∷ to_be 2 (2 ^ 16 - 1 - m)
    else if ltb m (2 ^ 31)
    then 0xd2 ∷ to_be 4 (2 ^ 32 - 1 - m)
    else 0xd3 ∷ to_be 8 (2 ^ 64 - 1 - m)

-- A number that is whole, as what the processor converts it to; another one as a double, with one
-- pattern for each infinity and one for all NaNs.
unfoldable pub integer_format : ℤ → List ℕ
integer_format (pos n) = natural_format n
integer_format (negsuc m) = negative_format m

abbrev pub double_pattern : ℕ → ℕ
double_pattern w =
    if is_inf w
    then (if is_positive w then 0x7ff0000000000000 else 0xfff0000000000000)
    else if is_nan w
    then 0xfff8000000000000
    else w

unfoldable pub number_format : Conversions → Number → List ℕ
number_format c (integer z) = integer_format (c.to_long_long z)
number_format c (double w) = 0xcb ∷ to_be 8 (double_pattern w)

-- A size in the shortest of three forms.
unfoldable pub size_format : ℕ → ℕ → ℕ → ℕ → List ℕ
size_format fix tag16 tag32 l =
    if ltb l 16
    then (fix + l) ∷ []
    else if ltb l 65536
    then tag16 ∷ to_be 2 l
    else tag32 ∷ to_be 4 l

unfoldable pub string_format : List ℕ → List ℕ
string_format s =
    let l = length s in
    if ltb l 32
    then (160 + l) ∷ s
    else if ltb l 65536
    then 0xda ∷ (to_be 2 l ++ s)
    else 0xdb ∷ (to_be 4 l ++ s)

unfoldable mutual
  pub format : Conversions → Value → List ℕ
  format c nil = 0xc0 ∷ []
  format c (boolean i) = (if i then 0xc3 else 0xc2) ∷ []
  format c (number n) = number_format c n
  format c (string s) = string_format s
  format c (buffer s) = string_format s
  format c (table (item v vs) fs) =
      size_format 144 0xdc 0xdd (suc (items_length vs)) ++ (format c v ++ format_items c vs)
  format c (table no_items fs) = size_format 128 0xde 0xdf (fields_length fs) ++ format_fields c fs
  format c light_userdata = []
  format c function = []
  format c userdata = []
  format c thread = []
  format c cdata = []

  pub format_items : Conversions → Items → List ℕ
  format_items c no_items = []
  format_items c (item v vs) = format c v ++ format_items c vs

  pub format_fields : Conversions → Fields → List ℕ
  format_fields c no_fields = []
  format_fields c (field k v fs) = format c k ++ (format c v ++ format_fields c fs)

-- A value that has a format: no part of it is a light userdata, a function, a userdata that is no
-- buffer, a thread or of an unknown type, and its tables have fewer than 2^31 elements or pairs.
unfoldable mutual
  pub IsData : Value → Type 0
  IsData nil = Unit
  IsData (boolean i) = Unit
  IsData (number n) = Unit
  IsData (string s) = Unit
  IsData (buffer s) = Unit
  IsData (table (item v vs) fs) = (suc (items_length vs) < 2 ^ 31) × IsData v × AllData vs
  IsData (table no_items fs) = (fields_length fs < 2 ^ 31) × AllPairs fs
  IsData light_userdata = ⊥
  IsData function = ⊥
  IsData userdata = ⊥
  IsData thread = ⊥
  IsData cdata = ⊥

  pub AllData : Items → Type 0
  AllData no_items = Unit
  AllData (item v vs) = IsData v × AllData vs

  pub AllPairs : Fields → Type 0
  AllPairs no_fields = Unit
  AllPairs (field k v fs) = IsData k × IsData v × AllPairs fs
