-- ===== src/Json/Strings.antt =====
-- JSON strings: `json_append_string` and the parts of `json_next_string_token`,
-- src/lev_new_json.c.
pub mod RoundTrip
pub mod Utf8
pub mod Bounds
use lev.Base.{
  List, Option, suc, ℕ, drop, get_or, if◌then◌else◌, length, some, ◌++◌, ◌∷◌, [], is_empty, leb,
  ltb, none, not, zero, ◌*◌, ◌+◌, ◌==◌, ◌&&◌, ◌/◌, ◌^◌, ◌||◌, ◌%◌, ◌-◌, bit_or,
}

-- A digit of a \u escape in `char2escape`.
abbrev pub hex_digit : ℕ → ℕ
hex_digit n = if ltb n 10 then 48 + n else 87 + n

-- `char2escape`: what stands for a byte in a string, if it does not stand for itself.
unfoldable pub char2escape : ℕ → Option (List ℕ)
char2escape c =
    if c == 8
    then some (92 ∷ b'b' ∷ [])
    else if c == 9
    then some (92 ∷ b't' ∷ [])
    else if c == 10
    then some (92 ∷ b'n' ∷ [])
    else if c == 12
    then some (92 ∷ b'f' ∷ [])
    else if c == 13
    then some (92 ∷ b'r' ∷ [])
    else if c == 34
    then some (92 ∷ 34 ∷ [])
    else if c == 47
    then some (92 ∷ 47 ∷ [])
    else if c == 92
    then some (92 ∷ 92 ∷ [])
    else if ltb c 32 || c == 127
    then some (92 ∷ b'u' ∷ 48 ∷ 48 ∷ hex_digit (c / 16) ∷ hex_digit (c % 16) ∷ [])
    else none

-- What `json_append_string` appends for a byte.
unfoldable pub escape_byte : ℕ → List ℕ
escape_byte c = elim (char2escape c) [ none ↦ c ∷ [] | some escstr ↦ escstr ]

-- The loop of `json_append_string`: the bytes between the quotes.
unfoldable pub escape_bytes : List ℕ → List ℕ
escape_bytes [] = []
escape_bytes (c ∷ cs) = escape_byte c ++ escape_bytes cs

-- What it appends, to a buffer with room for 6 bytes a byte and 2 more, which it asks for first: see
-- `buffer_holds` in Json.Encode for that.
unfoldable pub json_append_string : List ℕ → List ℕ
json_append_string s = 34 ∷ (escape_bytes s ++ 34 ∷ [])

-- `escape2char`: 0 is an error.
unfoldable pub escape2char : ℕ → ℕ
escape2char c =
    if c == 34
    then 34
    else if c == 92
    then 92
    else if c == 47
    then 47
    else if c == b'b'
    then 8
    else if c == b't'
    then 9
    else if c == b'n'
    then 10
    else if c == b'f'
    then 12
    else if c == b'r'
    then 13
    else if c == b'u'
    then b'u'
    else 0

-- The byte at an offset from `ptr`; behind the string stands a NUL.
abbrev pub peek : List ℕ → ℕ → ℕ
peek s i = get_or s i 0

-- `none` is -1.
unfoldable pub hexdigit2int : ℕ → Option ℕ
hexdigit2int hex =
    if leb 48 hex && leb hex 57
    then some (hex - 48)
    else (let lower = bit_or hex 0x20 in
        if leb 97 lower && leb lower 102 then some (10 + lower - 97) else none)

infixl 5 ◌>>=◌
abbrev pub ◌>>=◌ : {A B : Type 0} → Option A → (A → Option B) → Option B
none >>= f = none
some a >>= f = f a

-- The four digits at the front; a shift is a product, and a missing digit is a NUL.
unfoldable pub decode_hex4 : List ℕ → Option ℕ
decode_hex4 hex = do
  d₀ ← hexdigit2int (peek hex 0)
  d₁ ← hexdigit2int (peek hex 1)
  d₂ ← hexdigit2int (peek hex 2)
  d₃ ← hexdigit2int (peek hex 3)
  some (d₀ * 2 ^ 12 + d₁ * 2 ^ 8 + d₂ * 2 ^ 4 + d₃)

-- The masks and shifts are remainders and quotients, and `|` of disjoint bits is `+`. No bytes are
-- the result 0.
unfoldable pub codepoint_to_utf8 : ℕ → List ℕ
codepoint_to_utf8 codepoint =
    if leb codepoint 0x7f
    then codepoint ∷ []
    else if leb codepoint 0x7ff
    then (codepoint / 2 ^ 6 + 0xc0) ∷ (codepoint % 2 ^ 6 + 0x80) ∷ []
    else if leb codepoint 0xffff
    then (codepoint / 2 ^ 12 + 0xe0)
      ∷ (codepoint / 2 ^ 6 % 2 ^ 6 + 0x80)
      ∷ (codepoint % 2 ^ 6 + 0x80)
      ∷ []
    else if leb codepoint 0x1fffff
    then (codepoint / 2 ^ 18 + 0xf0)
      ∷ (codepoint / 2 ^ 12 % 2 ^ 6 + 0x80)
      ∷ (codepoint / 2 ^ 6 % 2 ^ 6 + 0x80)
      ∷ (codepoint % 2 ^ 6 + 0x80)
      ∷ []
    else []

-- The texts of error tokens.
pub data TokenError : Type 0 where
  unexpected_end_of_string invalid_unicode_escape_code invalid_escape_code invalid_number
        invalid_token :
      TokenError

-- One round of the loop of `json_next_string_token`: the closing quote, bytes that are appended to
-- `tmp` for a count of bytes of the input, or an error.
pub data StringStep : Type 0 where
  close : StringStep
  append : List ℕ → ℕ → StringStep
  bad : TokenError → StringStep

-- The bytes of a code point that was read off `escape_len` bytes.
unfoldable pub append_utf8 : ℕ → ℕ → StringStep
append_utf8 codepoint escape_len =
    let utf8 = codepoint_to_utf8 codepoint in
    if is_empty utf8 then bad invalid_unicode_escape_code else append utf8 escape_len

-- The second half of a surrogate pair, at `ptr + 6`.
unfoldable pub surrogate_pair : ℕ → List ℕ → StringStep
surrogate_pair codepoint low =
    if not (peek low 0 == 92) || not (peek low 1 == b'u')
    then bad invalid_unicode_escape_code
    else elim (decode_hex4 (drop 2 low)) [
      | none ↦ bad invalid_unicode_escape_code
      | some surrogate_low ↦
          if surrogate_low / 2 ^ 10 == 0x37
          then append_utf8 (codepoint % 2 ^ 10 * 2 ^ 10 + surrogate_low % 2 ^ 10 + 0x10000) 12
          else bad invalid_unicode_escape_code
    ]

-- `ptr` is at the backslash of `\u`. A code unit has 16 bits: `& 0xF800` compares its high five bits,
-- and `& 0x400` is the bit below them.
unfoldable pub json_append_unicode_escape : List ℕ → StringStep
json_append_unicode_escape ptr = elim (decode_hex4 (drop 2 ptr)) [
  | none ↦ bad invalid_unicode_escape_code
  | some codepoint ↦
      if codepoint / 2 ^ 11 == 0x1b
      then (if codepoint / 2 ^ 10 % 2 == 1
          then bad invalid_unicode_escape_code
          else surrogate_pair codepoint (drop 6 ptr))
      else append_utf8 codepoint 6
]

unfoldable pub escape_step : List ℕ → StringStep
escape_step ptr =
    let ch = escape2char (peek ptr 1) in
    if ch == b'u'
    then json_append_unicode_escape ptr
    else if ch == 0
    then bad invalid_escape_code
    else append (ch ∷ []) 2

unfoldable pub string_step : List ℕ → StringStep
string_step ptr =
    let ch = peek ptr 0 in
    if ch == 34
    then close
    else if ch == 0
    then bad unexpected_end_of_string
    else if ch == 92
    then escape_step ptr
    else append (ch ∷ []) 1

-- `json_parse_t`: the bytes from `ptr` on, and `ptr - data`. `tmp` and `current_depth` are arguments.
pub record JsonParse : Type 0 where
  pub rest : List ℕ
  pub ofs : ℕ

abbrev pub advance : ℕ → JsonParse → JsonParse
advance k json = record { rest = drop k json.rest; ofs = json.ofs + k }

pub data StringToken : Type 0 where
  closed : List ℕ → JsonParse → StringToken
  failed : TokenError → JsonParse → StringToken
  no_fuel : StringToken

-- The loop: each round takes a byte of the input, so a round for each byte is enough.
unfoldable pub string_loop : ℕ → JsonParse → List ℕ → StringToken
string_loop zero json tmp = no_fuel
string_loop (suc fuel) json tmp = elim (string_step json.rest) [
  | close ↦ closed tmp (advance 1 json)
  | append bytes k ↦ string_loop fuel (advance k json) (tmp ++ bytes)
  | bad e ↦ failed e json
]

-- `ptr` is at the opening quote.
unfoldable pub json_next_string_token : JsonParse → StringToken
json_next_string_token json = string_loop (suc (length json.rest)) (advance 1 json) []
