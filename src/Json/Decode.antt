-- ===== src/Json/Decode.antt =====
-- Decoding: `json_decode` of src/lev_new_json.c.
pub mod Total
use lev.Json.Strbuf.{strbuf_fits}
use lev.Base.Int.{pos}
use lev.Json.Value.{
  Platform, Value, Fields, JsonConfig, field, number, string, no_fields, nil, boolean, null, table,
}
use lev.Json.Strings.{JsonParse, peek}
use lev.Mpack.Value.{integer}
use lev.Base.{
  ℕ, List, ◌∷◌, [], zero, suc, true, false, Bool, ◌||◌, ◌&&◌, ◌==◌, if◌then◌else◌, leb, length,
  Option, some, none,
}
use lev.Json.Token.{
  Token, ◌>>=◌, Result, ok, raised, out_of_fuel, json_next_token, string_token, too_nested,
  number_token, boolean_token, not_utf8, parse_error, expect_value, obj_begin, arr_begin,
  null_token, obj_end, comma_or_object_end, object_key_string, comma, arr_end, colon, end_of_text,
  comma_or_array_end, expect_colon, the_end,
}

abbrev pub Reader {ℓ} : Type ℓ → Type ℓ
Reader A = JsonParse → Result (A × JsonParse)

abbrev pub bytes_eq : List ℕ → List ℕ → Bool
bytes_eq [] [] = true
bytes_eq [] (d ∷ ds) = false
bytes_eq (c ∷ cs) [] = false
bytes_eq (c ∷ cs) (d ∷ ds) = c == d && bytes_eq cs ds

-- `lua_rawset` with a string key: a key that is there gets the new value, another stands last.
unfoldable pub raw_set : List ℕ → Value → Fields → Fields
raw_set k v no_fields = field (string k) v no_fields
raw_set k v (field (string j) w fs) =
    let rest = raw_set k v fs in
    if bytes_eq j k then field (string j) v fs else field (string j) w rest
raw_set k v (field nil w fs) = field nil w (raw_set k v fs)
raw_set k v (field other w fs) = field other w (raw_set k v fs)

-- `lua_rawseti` with an index that is not there.
unfoldable pub raw_set_new : ℕ → Value → Fields → Fields
raw_set_new i v no_fields = field (number (integer (pos i))) v no_fields
raw_set_new i v (field k w fs) = field k w (raw_set_new i v fs)

-- What a token that must be a colon leads to.
unfoldable pub after_key : Token → ℕ → Reader (Unit {0})
after_key colon index json = ok (tt, json)
after_key other index json = raised (parse_error expect_colon other index)

-- Behind a pair: the end of the object, a comma with more behind it, or an error.
unfoldable pub after_pair : Value → Reader Value → Token → ℕ → Reader Value
after_pair object more obj_end index json = ok (object, json)
after_pair object more comma index json = more json
after_pair object more other index json = raised (parse_error comma_or_object_end other index)

unfoldable pub after_element : Value → Reader Value → Token → ℕ → Reader Value
after_element array more arr_end index json = ok (array, json)
after_element array more comma index json = more json
after_element array more other index json = raised (parse_error comma_or_array_end other index)

-- Behind the opening bracket: an empty table, or the loop from the token on.
unfoldable pub object_start : (Token → ℕ → Reader Value) → Token → ℕ → Reader Value
object_start loop obj_end index json = ok (table no_fields, json)
object_start loop other index json = loop other index json

unfoldable pub array_start : (Token → ℕ → Reader Value) → Token → ℕ → Reader Value
array_start loop arr_end index json = ok (table no_fields, json)
array_start loop other index json = loop other index json

-- The end of the text, behind the value.
unfoldable pub after_value : Value → Token → ℕ → Result Value
after_value v end_of_text index = ok v
after_value v other index = raised (parse_error the_end other index)

module _ (c : Platform) (cfg : JsonConfig) where
  -- The loop of `json_parse_object_context`, over the reader of a value: at a token, with the pairs so
  -- far. Each round takes a comma at least.
  unfoldable pub object_loop : (Token → ℕ → Reader Value) → ℕ → Fields → Token → ℕ → Reader Value
  object_loop any zero t token index json = out_of_fuel
  object_loop any (suc fuel) t (string_token key) index json =
      json_next_token c cfg json >>= λ (token, i₁, json₁).
      after_key token i₁ json₁ >>= λ (_, json₂).
      json_next_token c cfg json₂ >>= λ (first, i₂, json₃). any first i₂ json₃ >>= λ (v, json₄).
      json_next_token c cfg json₄ >>= λ (sep, i₃, json₅).
      after_pair (table (raw_set key v t))
        (λ json₆. json_next_token c cfg json₆ >>= λ (next, i₄, json₇).
          object_loop any fuel (raw_set key v t) next i₄ json₇)
        sep i₃ json₅
  object_loop any (suc fuel) t obj_begin index json =
      raised (parse_error object_key_string obj_begin index)
  object_loop any (suc fuel) t other index json = raised (parse_error object_key_string other index)

  -- The loop of `json_parse_array_context`, from the element `i` on.
  unfoldable pub array_loop : (Token → ℕ → Reader Value) → ℕ → ℕ → Fields → Token → ℕ → Reader Value
  array_loop any zero i t token index json = out_of_fuel
  array_loop any (suc fuel) i t token index json = any token index json >>= λ (v, json₁).
      json_next_token c cfg json₁ >>= λ (sep, i₁, json₂).
      after_element (table (raw_set_new i v t))
        (λ json₃. json_next_token c cfg json₃ >>= λ (next, i₂, json₄).
          array_loop any fuel (suc i) (raw_set_new i v t) next i₂ json₄)
        sep i₁ json₂

  -- `json_decode_descend` to `depth`, a level that the settings allow, and the context behind it.
  unfoldable pub descend : ℕ → Reader Value → Reader Value
  descend depth context json =
      if c.checkstack depth then context json else raised (too_nested depth json.ofs)

  unfoldable pub json_parse_object_context : (Token → ℕ → Reader Value) → Reader Value
  json_parse_object_context any json = json_next_token c cfg json >>= λ (token, index, json₁).
      object_start (object_loop any (suc (length json.rest)) no_fields) token index json₁

  unfoldable pub json_parse_array_context : (Token → ℕ → Reader Value) → Reader Value
  json_parse_array_context any json = json_next_token c cfg json >>= λ (token, index, json₁).
      array_start (array_loop any (suc (length json.rest)) 1 no_fields) token index json₁

  -- The switch of `json_process_value`, over what reads an object and an array.
  unfoldable pub value_of : Reader Value → Reader Value → Token → ℕ → Reader Value
  value_of object array (string_token s) index json = ok (string s, json)
  value_of object array (number_token n) index json = ok (number n, json)
  value_of object array (boolean_token b) index json = ok (boolean b, json)
  value_of object array obj_begin index json = object json
  value_of object array arr_begin index json = array json
  value_of object array null_token index json = ok (null, json)
  value_of object array obj_end index json = raised (parse_error expect_value obj_end index)
  value_of object array other index json = raised (parse_error expect_value other index)

  -- By the levels that `decode_max_depth` leaves below `depth`.
  unfoldable pub json_process_value : ℕ → ℕ → Token → ℕ → Reader Value
  json_process_value zero depth =
      value_of (λ json. raised (too_nested (suc depth) json.ofs))
        (λ json. raised (too_nested (suc depth) json.ofs))
  json_process_value (suc left) depth =
      value_of
        (descend (suc depth) (json_parse_object_context (json_process_value left (suc depth))))
        (descend (suc depth) (json_parse_array_context (json_process_value left (suc depth))))

  -- What `json_decode` does behind `strbuf_new`.
  unfoldable pub decode_text : List ℕ → Result Value
  decode_text text =
      json_next_token c cfg (record { rest = text; ofs = 0 }) >>= λ (token, i₁, json₁).
      json_process_value cfg.decode_max_depth 0 token i₁ json₁ >>= λ (v, json₂).
      json_next_token c cfg json₂ >>= λ (last, i₂, json₃). after_value v last i₂

  -- `json_decode` on a string. `none` is undefined in C: `strbuf_new` uses NULL where there is no block
  -- of the size, or the block is smaller than the text, and is not followed further. What is written
  -- into it is in `Json.Strbuf`.
  unfoldable pub json_decode : List ℕ → Option (Result Value)
  json_decode text =
      if leb 2 (length text) && (peek text 0 == 0 || peek text 1 == 0)
      then some (raised not_utf8)
      else if strbuf_fits (length text)
      then some (decode_text text)
      else none
