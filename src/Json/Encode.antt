-- ===== src/Json/Encode.antt =====
-- Encoding: `json_encode` of src/lev_new_json.c.
use lev.Json.Strings.{json_append_string}
use lev.Mpack.Value.{Number, integer, double, is_inf, is_nan, is_positive}
use lev.Base.{
  ℕ, List, Option, none, some, ◌∷◌, [], ◌++◌, zero, suc, true, false, Bool, ◌||◌, ◌&&◌,
  if◌then◌else◌, ◌==◌, ltb, leb, ◌*◌, ◌^◌, length, ◌+◌,
}
use lev.Base.Int.{pos, negsuc}
use lev.Json.Value.{
  Value, Fields, Platform, JsonConfig, InvalidNumbers, off, on, as_null, nil, null, boolean, number,
  string, table, no_fields, field,
}

-- The errors, which are Lua errors; the `int` that is `excessive_nesting`'s is the depth.
pub data EncodeError : Type 0 where
  excessively_sparse_array type_not_supported not_nan_or_infinity table_key : EncodeError
  excessive_nesting : ℕ → EncodeError

-- `undefined`: a `double` is converted to an `int` that does not hold it, which C does not define.
pub data Result {ℓ} (A : Type ℓ) : Type ℓ where
  ok : A → Result A
  raised : EncodeError → Result A
  undefined : Result A

infixl 5 ◌>>=◌
abbrev pub ◌>>=◌ {ℓ κ} : {A : Type ℓ} {B : Type κ} → Result A → (A → Result B) → Result B
ok a >>= f = f a
raised e >>= f = raised e
undefined >>= f = undefined

-- What a packer appends to the buffer.
abbrev pub Text : Type 0
Text = Result (List ℕ)

infixl 6 ◌then_append◌
abbrev pub ◌then_append◌ : Text → Text → Text
a then_append b = a >>= λ xs. b >>= λ ys. ok (xs ++ ys)

abbrev pub is_special_number : Number → Bool
is_special_number (integer z) = false
is_special_number (double w) = is_inf w || is_nan w

-- "NaN", "-Infinity" or "Infinity".
unfoldable pub special_name : Number → List ℕ
special_name (integer z) = []
special_name (double w) =
    if is_nan w
    then b'N' ∷ b'a' ∷ b'N' ∷ []
    else if is_positive w
    then b'I' ∷ b'n' ∷ b'f' ∷ b'i' ∷ b'n' ∷ b'i' ∷ b't' ∷ b'y' ∷ []
    else b'-' ∷ b'I' ∷ b'n' ∷ b'f' ∷ b'i' ∷ b'n' ∷ b'i' ∷ b't' ∷ b'y' ∷ []

abbrev pub null_text : List ℕ
null_text = b'n' ∷ b'u' ∷ b'l' ∷ b'l' ∷ []

-- By `encode_invalid_numbers`.
unfoldable pub append_special : InvalidNumbers → Number → Text
append_special off n = raised not_nan_or_infinity
append_special on n = ok (special_name n)
append_special as_null n = ok null_text

unfoldable pub json_append_number : Platform → JsonConfig → Number → Text
json_append_number c cfg n =
    if is_special_number n
    then append_special cfg.encode_invalid_numbers n
    else ok (c.g_fmt cfg.encode_number_precision n)

-- A key that `lua_array_length` takes for an index: a number that is its own floor, from 1 on.
pub data ArrayKey : Type 0 where
  index : ℕ → ArrayKey
  infinite no_index : ArrayKey

unfoldable pub array_key : Value → ArrayKey
array_key (number (integer (pos zero))) = no_index
array_key (number (integer (pos (suc i)))) = index (suc i)
array_key (number (integer (negsuc n))) = no_index
array_key (number (double w)) = if is_inf w && is_positive w then infinite else no_index
array_key other = no_index

-- What the loop of `lua_array_length` leaves: `max` and `items`, or -1.
pub data ArrayScan : Type 0 where
  scanned : ℕ → ℕ → ArrayScan
  not_array : ArrayScan

unfoldable pub scan_keys : Fields → ℕ → ℕ → Result ArrayScan
scan_keys no_fields max items = ok (scanned max items)
scan_keys (field k v fs) max items = elim (array_key k) [
  | index i ↦
      let rest = scan_keys fs (if ltb max i then i else max) (suc items) in
      if ltb max i && leb (2 ^ 31) i then undefined else rest
  | infinite ↦ undefined
  | no_index ↦ ok not_array
]

-- `none` is -1. The product is exact: it is below 2^31 at the settings that `json_create_config` makes,
-- up to 2^30 items.
unfoldable pub check_sparse : JsonConfig → ArrayScan → Result (Option ℕ)
check_sparse cfg not_array = ok none
check_sparse cfg (scanned max items) =
    if ltb 0 cfg.encode_sparse_ratio
      && ltb (items * cfg.encode_sparse_ratio) max
      && ltb cfg.encode_sparse_safe max
    then (if cfg.encode_sparse_convert then ok none else raised excessively_sparse_array)
    else ok (some max)

unfoldable pub lua_array_length : JsonConfig → Fields → Result (Option ℕ)
lua_array_length cfg fs = scan_keys fs 0 0 >>= check_sparse cfg

-- `lua_rawgeti`: nil for an index that is not there.
abbrev pub is_index : ℕ → Value → Bool
is_index i (number (integer (pos j))) = i == j
is_index i other = false

unfoldable pub raw_get : Fields → ℕ → Value
raw_get no_fields i = nil
raw_get (field k v fs) i = let rest = raw_get fs i in if is_index i k then v else rest

-- A comma before each element but the first.
abbrev pub separator : Bool → List ℕ
separator true = b',' ∷ []
separator false = []

-- The loop of `json_append_array`, over what appends an element: from `i` on, for `n` elements.
unfoldable pub append_items : (Value → Text) → Fields → Bool → ℕ → ℕ → Text
append_items any fs comma i zero = ok []
append_items any fs comma i (suc n) =
    ok (separator comma)
    then_append any (raw_get fs i)
    then_append append_items any fs true (suc i) n

unfoldable pub json_append_array : (Value → Text) → Fields → ℕ → Text
json_append_array any fs array_length =
    ok (b'[' ∷ []) then_append append_items any fs false 1 array_length then_append ok (b']' ∷ [])

-- A key of an object, with its colon.
unfoldable pub append_key : Platform → JsonConfig → Value → Text
append_key c cfg (number n) =
    ok (34 ∷ []) then_append json_append_number c cfg n then_append ok (34 ∷ b':' ∷ [])
append_key c cfg (string s) = ok (json_append_string s ++ b':' ∷ [])
append_key c cfg other = raised table_key

-- The loop of `json_append_object`.
unfoldable pub append_pairs : Platform → JsonConfig → (Value → Text) → Bool → Fields → Text
append_pairs c cfg any comma no_fields = ok []
append_pairs c cfg any comma (field k v fs) =
    ok (separator comma)
    then_append append_key c cfg k
    then_append any v
    then_append append_pairs c cfg any true fs

unfoldable pub json_append_object : Platform → JsonConfig → (Value → Text) → Fields → Text
json_append_object c cfg any fs =
    ok (b'{' ∷ []) then_append append_pairs c cfg any false fs then_append ok (b'}' ∷ [])

-- A table, at the depth that `json_check_encode_depth` let pass.
unfoldable pub append_table : Platform → JsonConfig → (Value → Text) → Fields → Text
append_table c cfg any fs = lua_array_length cfg fs >>= λ len. elim len [
  | none ↦ json_append_object c cfg any fs
  | some zero ↦ json_append_object c cfg any fs
  | some (suc n) ↦ json_append_array any fs (suc n)
]

-- The switch of `json_append_data`, over what appends a table.
unfoldable pub append_value : Platform → JsonConfig → (Fields → Text) → Value → Text
append_value c cfg tables (string s) = ok (json_append_string s)
append_value c cfg tables (number n) = json_append_number c cfg n
append_value c cfg tables (boolean true) = ok (b't' ∷ b'r' ∷ b'u' ∷ b'e' ∷ [])
append_value c cfg tables (boolean false) = ok (b'f' ∷ b'a' ∷ b'l' ∷ b's' ∷ b'e' ∷ [])
append_value c cfg tables (table fs) = tables fs
append_value c cfg tables nil = ok null_text
append_value c cfg tables null = ok null_text
append_value c cfg tables other = raised type_not_supported

-- By the levels that `encode_max_depth` leaves below `current_depth`.
unfoldable pub json_append_data : Platform → JsonConfig → ℕ → ℕ → Value → Text
json_append_data c cfg zero current_depth =
    append_value c cfg (λ fs. raised (excessive_nesting (suc current_depth)))
json_append_data c cfg (suc left) current_depth = append_value c cfg (λ fs.
    if c.checkstack (suc current_depth)
    then append_table c cfg (json_append_data c cfg left (suc current_depth)) fs
    else raised (excessive_nesting (suc current_depth)))

-- A text that the buffer is sure to hold. The code asks the buffer, before it appends, for what is in
-- it and 6 bytes more for each byte of a string, or 32 for a number: for a text of n bytes, never for
-- more than 6 * n + 64. A block has at most 1 MB; above that `lev_memslice_resize` uses NULL.
abbrev pub buffer_holds : List ℕ → Bool
buffer_holds text = ltb (6 * length text + 64) (1024 * 1024)

-- `none`: the text may need a block that there is not, which is not followed further.
abbrev pub in_buffer : Text → Option Text
in_buffer (ok text) = if buffer_holds text then some (ok text) else none
in_buffer (raised e) = some (raised e)
in_buffer undefined = some undefined

-- `json_encode` of one value. The buffer is reset before and is given back after, or is kept. An error
-- behind a part of a text that is too long is not told from others.
unfoldable pub json_encode : Platform → JsonConfig → Value → Option Text
json_encode c cfg v = in_buffer (json_append_data c cfg cfg.encode_max_depth 0 v)
