-- ===== src/Json/Value.antt =====
-- Lua values as src/lev_new_json.c meets them, its settings, and what it takes from the C library
-- and from Lua.
use lev.Base.{Bool, false, ℕ, List, true}
use lev.Mpack.Value.{Number}

-- A table is its pairs, in the order of `lua_next`. `null` is `json.null`, the light userdata that is
-- NULL; `light_userdata` is any other.
mutual
  pub data Value : Type 0 where
    nil null : Value
    boolean : Bool → Value
    number : Number → Value
    string : List ℕ → Value
    table : Fields → Value
    light_userdata function userdata thread : Value

  pub data Fields : Type 0 where
    no_fields : Fields
    field : Value → Value → Fields → Fields

-- `encode_invalid_numbers`: 0, 1 and 2.
pub data InvalidNumbers : Type 0 where
  off on as_null : InvalidNumbers

-- `json_config_t`, but for its two tables, which are `ch2token` and `escape2char`, and for the
-- buffer that is kept.
pub record JsonConfig : Type 0 where
  pub encode_sparse_convert : Bool
  pub encode_sparse_ratio : ℕ
  pub encode_sparse_safe : ℕ
  pub encode_max_depth : ℕ
  pub encode_invalid_numbers : InvalidNumbers
  pub encode_number_precision : ℕ
  pub encode_keep_buffer : Bool
  pub decode_invalid_numbers : Bool
  pub decode_max_depth : ℕ

-- The settings of `json_create_config`.
abbrev pub default_config : JsonConfig
default_config = record {
  encode_sparse_convert = false;
  encode_sparse_ratio = 2;
  encode_sparse_safe = 10;
  encode_max_depth = 1000;
  encode_invalid_numbers = off;
  encode_number_precision = 14;
  encode_keep_buffer = true;
  decode_invalid_numbers = true;
  decode_max_depth = 1000;
}

-- `snprintf` of a number with the format "%.<precision>g"; `strtod` of a string, with the count of
-- bytes up to `endptr`; and whether `lua_checkstack` succeeds at a depth. The decimal point of the
-- locale is a dot, so that `fpconv_strtod` and `fpconv_g_fmt` are calls of these.
pub record Platform : Type 0 where
  pub g_fmt : ℕ → Number → List ℕ
  pub strtod : List ℕ → Number × ℕ
  pub checkstack : ℕ → Bool
