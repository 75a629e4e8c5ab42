-- ===== src/Json/Config.antt =====
-- The functions that change the settings of the JSON codec, src/lev_new_json.c.
pub mod Ranges
use Prim.Native.String.{String}
use text.Mathlib.Text.{◌==◌ as str_eq}
use lev.Base.{
  ℕ, List, Option, Bool, none, some, true, false, [], ◌∷◌, ◌&&◌, ◌^◌, ◌-◌, leb, if◌then◌else◌,
}
use lev.Base.Int.{ℤ, pos, negsuc}
use lev.Json.Value.{JsonConfig, InvalidNumbers, off, on, as_null}

-- An argument, also one that is missing: `integer` is what `luaL_checkinteger` takes, as an `int`.
pub data Setting : Type 0 where
  absent other : Setting
  boolean : Bool → Setting
  integer : ℤ → Setting
  word : String → Setting

-- The setting behind the call, or the argument that the error names.
pub data Answer {ℓ} (A : Type ℓ) : Type ℓ where
  set : A → Answer A
  arg_error : ℕ → Answer A

abbrev pub int_max : ℕ
int_max = 2 ^ 31 - 1

-- An integer out of range is an error of argument 1, whichever argument it is.
unfoldable pub json_integer_option : ℕ → Setting → ℕ → ℕ → ℕ → Answer ℕ
json_integer_option optindex absent setting min max = set setting
json_integer_option optindex (integer (pos value)) setting min max =
    if leb min value && leb value max then set value else arg_error 1
json_integer_option optindex (integer (negsuc n)) setting min max = arg_error 1
json_integer_option optindex argument setting min max = arg_error optindex

-- `luaL_checkoption`.
abbrev pub check_option {ℓ} : {A : Type ℓ} → ℕ → List (String × A) → String → Answer A
check_option optindex [] s = arg_error optindex
check_option optindex ((name, a) ∷ options) s =
    if str_eq name s then set a else check_option optindex options s

-- With `bool_true` 1, which all callers have: a Boolean is the first or the second option.
unfoldable pub json_enum_option {ℓ} :
    {A : Type ℓ} → ℕ → Setting → A → List (String × A) → A → A → Answer A
json_enum_option optindex absent setting options if_false if_true = set setting
json_enum_option optindex (boolean b) setting options if_false if_true =
    set (if b then if_true else if_false)
json_enum_option optindex (word s) setting options if_false if_true =
    check_option optindex options s
json_enum_option optindex argument setting options if_false if_true = arg_error optindex

abbrev pub bool_option : ℕ → Setting → Bool → Answer Bool
bool_option optindex argument setting =
    json_enum_option optindex argument setting (("off", false) ∷ ("on", true) ∷ []) false true

-- A call's settings, and the error, if there is one; what was set before the error stays set.
abbrev pub Called : Type 0
Called = JsonConfig × Option ℕ

abbrev pub apply {ℓ} :
    {A : Type ℓ} → JsonConfig → Answer A → (A → JsonConfig) → (JsonConfig → Called) → Called
apply cfg (set a) update next = next (update a)
apply cfg (arg_error n) update next = (cfg, some n)

abbrev pub returned : JsonConfig → Called
returned cfg = (cfg, none)

-- The `json_cfg_` functions, by what they are called in Lua.
pub data Function : Type 0 where
  encode_sparse_array : Setting → Setting → Setting → Function
  encode_max_depth decode_max_depth encode_number_precision encode_keep_buffer
        encode_invalid_numbers decode_invalid_numbers :
      Setting → Function

-- The second and the third setting of `json_cfg_encode_sparse_array`.
abbrev pub with_safe : JsonConfig → Setting → Called
with_safe cfg c =
    apply cfg (json_integer_option 3 c cfg.encode_sparse_safe 0 int_max)
      (λ v. record cfg { encode_sparse_safe = v }) returned

abbrev pub with_ratio : JsonConfig → Setting → Setting → Called
with_ratio cfg b c =
    apply cfg (json_integer_option 2 b cfg.encode_sparse_ratio 0 int_max)
      (λ v. record cfg { encode_sparse_ratio = v }) (λ cfg₁. with_safe cfg₁ c)

abbrev pub invalid_numbers_option : Setting → InvalidNumbers → Answer InvalidNumbers
invalid_numbers_option a setting =
    json_enum_option 1 a setting (("off", off) ∷ ("on", on) ∷ ("null", as_null) ∷ []) off on

-- What `json_cfg_encode_keep_buffer` does to the buffer is not in it.
unfoldable pub configure : Function → JsonConfig → Called
configure (encode_sparse_array a b c) cfg =
    apply cfg (bool_option 1 a cfg.encode_sparse_convert)
      (λ v. record cfg { encode_sparse_convert = v }) (λ cfg₁. with_ratio cfg₁ b c)
configure (encode_max_depth a) cfg =
    apply cfg (json_integer_option 1 a cfg.encode_max_depth 1 int_max)
      (λ v. record cfg { encode_max_depth = v }) returned
configure (decode_max_depth a) cfg =
    apply cfg (json_integer_option 1 a cfg.decode_max_depth 1 int_max)
      (λ v. record cfg { decode_max_depth = v }) returned
configure (encode_number_precision a) cfg =
    apply cfg (json_integer_option 1 a cfg.encode_number_precision 1 14)
      (λ v. record cfg { encode_number_precision = v }) returned
configure (encode_keep_buffer a) cfg =
    apply cfg (bool_option 1 a cfg.encode_keep_buffer) (λ v. record cfg { encode_keep_buffer = v })
      returned
configure (encode_invalid_numbers a) cfg =
    apply cfg (invalid_numbers_option a cfg.encode_invalid_numbers)
      (λ v. record cfg { encode_invalid_numbers = v }) returned
configure (decode_invalid_numbers a) cfg =
    apply cfg (bool_option 1 a cfg.decode_invalid_numbers)
      (λ v. record cfg { decode_invalid_numbers = v }) returned

-- Calls, one after the other; a script can go on after an error.
unfoldable pub configure_all : List Function → JsonConfig → JsonConfig
configure_all [] cfg = cfg
configure_all (f ∷ fs) cfg = configure_all fs (configure f cfg).0
