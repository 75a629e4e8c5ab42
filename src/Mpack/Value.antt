-- ===== src/Mpack/Value.antt =====
-- Lua values as src/lev_mpack.c meets them.
use lev.Base.{ℕ, suc, ◌/◌, ◌%◌, ◌^◌, List, Bool, ◌==◌, ◌&&◌, ltb}
use lev.Base.Int.{ℤ}

-- A `lua_Number` is a double: `integer z` if it is finite and equal to its floor, else `double w`,
-- by its 64-bit pattern.
pub data Number : Type 0 where
  integer : ℤ → Number
  double : ℕ → Number

-- A table is what its array part holds (at 1 to `lua_objlen`) and the other pairs, in the order of
-- `lua_next`. A buffer is a `lev.buffer` object, by the bytes that its slice covers, and `cdata` is a
-- value of a type that `mpwbuf_pack_anytype` does not know.
mutual
  pub data Value : Type 0 where
    nil : Value
    boolean : Bool → Value
    number : Number → Value
    string : List ℕ → Value
    buffer : List ℕ → Value
    table : Items → Fields → Value
    light_userdata function userdata thread cdata : Value

  pub data Items : Type 0 where
    no_items : Items
    item : Value → Items → Items

  pub data Fields : Type 0 where
    no_fields : Fields
    field : Value → Value → Fields → Fields

abbrev pub items_length : Items → ℕ
items_length no_items = 0
items_length (item v vs) = suc (items_length vs)

abbrev pub fields_length : Fields → ℕ
fields_length no_fields = 0
fields_length (field k v fs) = suc (fields_length fs)

-- `isinf` and `isnan` of <math.h>, on the pattern of a double: the exponent's bits are all set.
abbrev pub is_special : ℕ → Bool
is_special w = w / 2 ^ 52 % 2048 == 2047

abbrev pub is_inf : ℕ → Bool
is_inf w = is_special w && w % 2 ^ 52 == 0

abbrev pub is_nan : ℕ → Bool
is_nan w = is_special w && ltb 0 (w % 2 ^ 52)

abbrev pub is_positive : ℕ → Bool
is_positive w = w / 2 ^ 63 == 0

-- What the processor converts: a double to a `long long`, and a `long long`, an `unsigned long
-- long`, the pattern of a double and that of a float to a `lua_Number`.
pub record Conversions : Type 0 where
  pub to_long_long : ℤ → ℤ
  pub of_long_long : ℤ → Number
  pub of_double : ℕ → Number
  pub of_float : ℕ → Number
