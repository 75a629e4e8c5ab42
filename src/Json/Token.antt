-- ===== src/Json/Token.antt =====
-- The tokens of JSON text: `json_next_token` of src/lev_new_json.c.
pub mod Bounds
use lev.Json.Value.{Platform, JsonConfig}
use lev.Json.Strings.{
  JsonParse, StringToken, TokenError, closed, peek, advance, failed, json_next_string_token,
  no_fuel, invalid_number, invalid_token,
}
use lev.Mpack.Value.{Number}
use lev.Base.{
  ℕ, List, ◌∷◌, [], true, false, Bool, ◌||◌, ◌&&◌, if◌then◌else◌, leb, ◌==◌, ◌+◌, bit_or, drop, not,
}
use lev.Buffer.Methods.{starts}

-- `json_token_type_t`, with the value that a `json_token_t` of the type holds.
pub data Token : Type 0 where
  obj_begin obj_end arr_begin arr_end colon comma end_of_text whitespace unknown null_token : Token
  string_token : List ℕ → Token
  number_token : Number → Token
  boolean_token : Bool → Token
  error_token : TokenError → Token

abbrev pub is_digit : ℕ → Bool
is_digit c = leb 48 c && leb c 57

-- `ch2token`, filled by `json_create_config`; an error gets its text from `json_next_token`.
unfoldable pub ch2token : ℕ → Token
ch2token c =
    if c == b'{'
    then obj_begin
    else if c == b'}'
    then obj_end
    else if c == b'['
    then arr_begin
    else if c == b']'
    then arr_end
    else if c == b','
    then comma
    else if c == b':'
    then colon
    else if c == 0
    then end_of_text
    else if c == 32 || c == 9 || c == 10 || c == 13
    then whitespace
    else if c == b'f'
        || c == b'i'
        || c == b'I'
        || c == b'n'
        || c == b'N'
        || c == b't'
        || c == 34
        || c == b'+'
        || c == b'-'
        || is_digit c
    then unknown
    else error_token invalid_token

abbrev pub is_whitespace : Token → Bool
is_whitespace whitespace = true
is_whitespace _ = false

-- Eat whitespace.
unfoldable pub skip_whitespace : List ℕ → ℕ → JsonParse
skip_whitespace [] ofs = record { rest = []; ofs = ofs }
skip_whitespace (c ∷ cs) ofs =
    let skipped = skip_whitespace cs (ofs + 1) in
    if is_whitespace (ch2token c) then skipped else record { rest = c ∷ cs; ofs = ofs }

-- `strncasecmp(p, word, strlen(word)) == 0`, for a word in lower case.
abbrev pub to_lower : ℕ → ℕ
to_lower c = if leb 65 c && leb c 90 then c + 32 else c

abbrev pub starts_nocase : List ℕ → List ℕ → Bool
starts_nocase [] s = true
starts_nocase (c ∷ cs) [] = false
starts_nocase (c ∷ cs) (d ∷ ds) = c == to_lower d && starts_nocase cs ds

-- Behind the sign. A `char` from 128 on is negative.
unfoldable pub is_invalid_unsigned : List ℕ → Bool
is_invalid_unsigned p =
    if peek p 0 == 48
    then bit_or (peek p 1) 0x20 == b'x' || is_digit (peek p 1)
    else if leb (peek p 0) 57 || leb 128 (peek p 0)
    then false
    else starts_nocase (b'i' ∷ b'n' ∷ b'f' ∷ []) p || starts_nocase (b'n' ∷ b'a' ∷ b'n' ∷ []) p

unfoldable pub json_is_invalid_number : List ℕ → Bool
json_is_invalid_number p =
    if peek p 0 == b'+'
    then true
    else is_invalid_unsigned (if peek p 0 == b'-' then drop 1 p else p)

-- What decoding comes to. `raised` is a Lua error; `out_of_fuel` has no counterpart in the program.
pub data Expected : Type 0 where
  object_key_string expect_colon comma_or_object_end comma_or_array_end expect_value the_end :
      Expected

-- The errors: an unexpected token, at an index from 0 on; too many levels, at an offset; a text that
-- is not UTF-8.
pub data DecodeError : Type 0 where
  parse_error : Expected → Token → ℕ → DecodeError
  too_nested : ℕ → ℕ → DecodeError
  not_utf8 : DecodeError

pub data Result {ℓ} (A : Type ℓ) : Type ℓ where
  ok : A → Result A
  raised : DecodeError → Result A
  out_of_fuel : Result A

infixl 5 ◌>>=◌
abbrev pub ◌>>=◌ {ℓ κ} : {A : Type ℓ} {B : Type κ} → Result A → (A → Result B) → Result B
ok a >>= f = f a
raised e >>= f = raised e
out_of_fuel >>= f = out_of_fuel

-- A `json_token_t` with its index, and the parser behind it.
abbrev pub Lexed : Type 0
Lexed = Token × ℕ × JsonParse

unfoldable pub json_next_number_token : Platform → JsonParse → Lexed
json_next_number_token c json =
    let (num, n) = c.strtod json.rest in
    if n == 0
    then (error_token invalid_number, json.ofs, json)
    else (number_token num, json.ofs, advance n json)

abbrev pub string_lexed : ℕ → StringToken → Result Lexed
string_lexed index (closed s json) = ok (string_token s, index, json)
string_lexed index (failed e json) = ok (error_token e, json.ofs, json)
string_lexed index no_fuel = out_of_fuel

-- A word, or a number that is known to be no JSON.
unfoldable pub word_token : Platform → JsonConfig → JsonParse → Lexed
word_token c cfg json =
    if starts (b't' ∷ b'r' ∷ b'u' ∷ b'e' ∷ []) json.rest
    then (boolean_token true, json.ofs, advance 4 json)
    else if starts (b'f' ∷ b'a' ∷ b'l' ∷ b's' ∷ b'e' ∷ []) json.rest
    then (boolean_token false, json.ofs, advance 5 json)
    else if starts (b'n' ∷ b'u' ∷ b'l' ∷ b'l' ∷ []) json.rest
    then (null_token, json.ofs, advance 4 json)
    else if cfg.decode_invalid_numbers && json_is_invalid_number json.rest
    then json_next_number_token c json
    else (error_token invalid_token, json.ofs, json)

-- The characters that triggered T_UNKNOWN.
unfoldable pub unknown_token : Platform → JsonConfig → JsonParse → Result Lexed
unknown_token c cfg json =
    let ch = peek json.rest 0 in
    if ch == 34
    then string_lexed json.ofs (json_next_string_token json)
    else if ch == b'-' || is_digit ch
    then (if not cfg.decode_invalid_numbers && json_is_invalid_number json.rest
        then ok (error_token invalid_number, json.ofs, json)
        else ok (json_next_number_token c json))
    else ok (word_token c cfg json)

-- The token at the front; `ptr` does not move for an error or the end.
unfoldable pub front_token : Platform → JsonConfig → JsonParse → Result Lexed
front_token c cfg json = elim (ch2token (peek json.rest 0)) [
  | error_token e ↦ ok (error_token e, json.ofs, json)
  | end_of_text ↦ ok (end_of_text, json.ofs, json)
  | unknown ↦ unknown_token c cfg json
  | token ↦ ok (token, json.ofs, advance 1 json)
]

unfoldable pub json_next_token : Platform → JsonConfig → JsonParse → Result Lexed
json_next_token c cfg json = front_token c cfg (skip_whitespace json.rest json.ofs)
