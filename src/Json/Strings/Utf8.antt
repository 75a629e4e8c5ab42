-- ===== src/Json/Strings/Utf8.antt =====
-- The \u escapes of src/lev_new_json.c and UTF-8.
-- A digit is read back.
use lev.Json.Strings.{
  codepoint_to_utf8, decode_hex4, hexdigit2int, hex_digit, append_utf8, json_append_unicode_escape,
  peek, append, surrogate_pair,
}
use lev.Base.{
  List, ℕ, Bool, Option, if◌then◌else◌, ◌<◌, ◌∷◌, ltb, ◌/◌, ◌≡◌, ◌⊎◌, some, ◌+◌, ◌^◌, arith, ◌%◌,
  ◌*◌, ◌-◌, ◌==◌, [], all_below_sound, none, refl, ◌++◌, false, drop, length, ◌∙◌, Bool-cases, ap,
  inl, ltb-true, inr, append_assoc, length-append,
}

reads : ℕ → Bool
reads d = elim (hexdigit2int (hex_digit d)) [ none ↦ false | some v ↦ v == d ]

digit_read : (d : ℕ) → d < 16 → hexdigit2int (hex_digit d) ≡ some d
unfolding reads hexdigit2int
digit_read d h = ground (arith, all_below_sound 16 reads d refl h)

pub hex4_read :
    (a b c d : ℕ) (tail : List ℕ)
    → a < 16
    → b < 16
    → c < 16
    → d < 16
    → decode_hex4 (hex_digit a ∷ hex_digit b ∷ hex_digit c ∷ hex_digit d ∷ tail)
      ≡ some (a * 2 ^ 12 + b * 2 ^ 8 + c * 2 ^ 4 + d)
unfolding decode_hex4
hex4_read a b c d tail ha hb hc hd =
    rw (digit_read a ha, digit_read b hb, digit_read c hc, digit_read d hd) refl

-- A \u escape of 16 bits, in four digits.
unfoldable pub escape_unit : ℕ → List ℕ
escape_unit u =
    92
    ∷ b'u'
    ∷ hex_digit (u / 2 ^ 12)
    ∷ hex_digit (u / 2 ^ 8 % 16)
    ∷ hex_digit (u / 2 ^ 4 % 16)
    ∷ hex_digit (u % 16)
    ∷ []

-- The escapes of a code point: one unit, or a surrogate pair.
unfoldable pub escape_codepoint : ℕ → List ℕ
escape_codepoint cp =
    if ltb cp 0x10000
    then escape_unit cp
    else escape_unit (0xd800 + (cp - 0x10000) / 2 ^ 10)
      ++ escape_unit (0xdc00 + (cp - 0x10000) % 2 ^ 10)

-- A Unicode scalar value.
abbrev pub IsScalar : ℕ → Type 0
IsScalar cp = (cp < 0xd800) ⊎ ((0xdfff < cp) × (cp < 0x110000))

-- UTF-8 as a standard reads it: the leading byte gives the count of bytes, and each continuation byte
-- has the high bits 10 and six bits more.
unfoldable pub continuation : ℕ → ℕ → Option ℕ
continuation acc b = if b / 2 ^ 6 == 2 then some (acc * 2 ^ 6 + b % 2 ^ 6) else none

unfoldable pub decode_utf8 : List ℕ → Option ℕ
unfolding continuation
decode_utf8 (a ∷ []) = if a / 2 ^ 7 == 0 then some a else none
decode_utf8 (a ∷ b ∷ []) = if a / 2 ^ 5 == 6 then continuation (a % 2 ^ 5) b else none
decode_utf8 (a ∷ b ∷ c ∷ []) =
    if a / 2 ^ 4 == 14
    then (elim (continuation (a % 2 ^ 4) b) [ none ↦ none | some acc ↦ continuation acc c ])
    else none
decode_utf8 (a ∷ b ∷ c ∷ d ∷ []) =
    if a / 2 ^ 3 == 30
    then (elim (continuation (a % 2 ^ 3) b) [
      | none ↦ none
      | some acc ↦ elim (continuation acc c) [ none ↦ none | some acc' ↦ continuation acc' d ]
    ])
    else none
decode_utf8 _ = none

utf8_lem : (cp : ℕ) → cp < 0x110000 → decode_utf8 (codepoint_to_utf8 cp) ≡ some cp
unfolding decode_utf8 codepoint_to_utf8
utf8_lem cp h = ground arith

unit_read :
    (u : ℕ) (tail : List ℕ) → u < 2 ^ 16 → decode_hex4 (drop 2 (escape_unit u ++ tail)) ≡ some u
unfolding escape_unit
unit_read u tail h =
    hex4_read (u / 2 ^ 12) (u / 2 ^ 8 % 16) (u / 2 ^ 4 % 16) (u % 16) tail (omega arith)
      (omega arith) (omega arith) (omega arith)
    ∙ ap some (omega arith)

unit_shape : (u : ℕ) (tail : List ℕ) → drop 6 (escape_unit u ++ tail) ≡ tail
unfolding escape_unit
unit_shape u tail = refl

unit_front :
    (u : ℕ) (tail : List ℕ)
    → (peek (escape_unit u ++ tail) 0 ≡ 92) × (peek (escape_unit u ++ tail) 1 ≡ b'u')
unfolding escape_unit
unit_front u tail = (refl, refl)

append_utf8_lem : (cp k : ℕ) → cp < 0x110000 → append_utf8 cp k ≡ append (codepoint_to_utf8 cp) k
unfolding append_utf8 codepoint_to_utf8
append_utf8_lem cp k h = ground arith

-- A pair, by its two units.
pair_read :
    (high low : ℕ) (tail : List ℕ)
    → high < 2 ^ 10
    → low < 2 ^ 10
    → json_append_unicode_escape
        (escape_unit (0xd800 + high) ++ (escape_unit (0xdc00 + low) ++ tail))
      ≡ append (codepoint_to_utf8 (high * 2 ^ 10 + low + 0x10000)) 12
unfolding json_append_unicode_escape surrogate_pair
pair_read high low tail h l =
    let second = escape_unit (0xdc00 + low) ++ tail in
    ground (
      arith,
      unit_read (0xd800 + high) second (omega arith),
      unit_shape (0xd800 + high) second,
      unit_front (0xdc00 + low) tail,
      unit_read (0xdc00 + low) tail (omega arith),
      append_utf8_lem (high * 2 ^ 10 + low + 0x10000) 12 (omega arith),
    )

unit_length : (u : ℕ) → length (escape_unit u) ≡ 6
unfolding escape_unit
unit_length u = refl

-- The \u escapes of a Unicode scalar value, a surrogate pair from 0x10000 on, are read whole, and the
-- bytes that are appended are its UTF-8.
pub unicode_escape-escape_codepoint :
    (cp : ℕ) (tail : List ℕ)
    → IsScalar cp
    → (utf8 : List ℕ) × (json_append_unicode_escape (escape_codepoint cp ++ tail)
        ≡ append utf8 (length (escape_codepoint cp)))
      × (decode_utf8 utf8 ≡ some cp)
unfolding escape_codepoint json_append_unicode_escape
unicode_escape-escape_codepoint cp tail s = elim (Bool-cases (ltb cp 0x10000)) [
  | inl e ↦ (
    codepoint_to_utf8 cp,
    ground (
      arith,
      unit_read cp tail (ltb-true _ _ e),
      append_utf8_lem cp 6 (ground arith),
      unit_length cp,
    ),
    utf8_lem cp (ground arith),
  )
  | inr e ↦
      let high = (cp - 0x10000) / 2 ^ 10 in
      let low = (cp - 0x10000) % 2 ^ 10 in
      let whole : high * 2 ^ 10 + low + 0x10000 ≡ cp = ground arith in
      (
        codepoint_to_utf8 cp,
        rw
            (
              e,
              append_assoc (escape_unit (0xd800 + high)) (escape_unit (0xdc00 + low)) tail,
              length-append (escape_unit (0xd800 + high)) (escape_unit (0xdc00 + low)),
              unit_length (0xd800 + high),
              unit_length (0xdc00 + low),
            )
            (pair_read high low tail (ground arith) (ground arith)
              ∙ ap (λ c. append (codepoint_to_utf8 c) 12) whole),
        utf8_lem cp (ground arith),
      )
]
