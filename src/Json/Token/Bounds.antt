-- ===== src/Json/Token/Bounds.antt =====
-- Where `json_next_token` leaves the parser.
use lev.Json.Strings.Bounds.{TokenFits, next_string-TokenFits}
use lev.Buffer.Methods.{starts}
use lev.Json.Value.{Platform, JsonConfig}
use lev.Json.Strings.{
  JsonParse, json_next_string_token, StringToken, closed, failed, no_fuel, TokenError, advance,
  peek, invalid_number, invalid_token,
}
use lev.Base.{
  ℕ, List, ◌≡◌, ◌∷◌, [], arith, refl, inl, inr, true, false, ◌<◌, ◌≤◌, length, ◌+◌, length-drop,
  drop, Bool-cases, ◌==◌, ◌||◌, not, ◌&&◌, ap,
}
use lev.Json.Token.{
  Token, Result, ok, raised, out_of_fuel, ◌>>=◌, string_token, number_token, boolean_token,
  error_token, end_of_text, comma, DecodeError, JsonParse, Lexed, Platform, json_next_number_token,
  starts, parse_error, string_lexed, too_nested, not_utf8, unknown_token, JsonConfig, is_digit,
  json_is_invalid_number, front_token, word_token, null_token, ch2token, json_next_token, obj_begin,
  skip_whitespace, is_whitespace, obj_end, arr_begin, unknown, arr_end, colon, whitespace,
}

-- An index or an offset in the text, or one behind it.
abbrev pub IsWithin : ℕ → DecodeError → Type 0
IsWithin total (parse_error x token i) = i ≤ total
IsWithin total (too_nested depth i) = i ≤ total
IsWithin total not_utf8 = Unit

-- A step that ends, with `P` of its result, or with an error inside the text.
abbrev pub Ends : {A : Type 0} → ℕ → (A → Type 0) → Result A → Type 0
Ends total P (ok a) = P a
Ends total P (raised e) = IsWithin total e
Ends total P out_of_fuel = ⊥

pub Ends->>= :
    {A B : Type 0} (total : ℕ) (P : A → Type 0) (Q : B → Type 0) (m : Result A) (f : A → Result B)
    → Ends total P m
    → ((a : A) → P a → Ends total Q (f a))
    → Ends total Q (m >>= f)
Ends->>= total P Q (ok a) f h k = k a h
Ends->>= total P Q (raised e) f h k = h
Ends->>= total P Q out_of_fuel f h k = absurd h

-- The parser stands in a text of `total` bytes, with `n` bytes left at most.
abbrev pub Stands : ℕ → ℕ → JsonParse → Type 0
Stands total n json = (json.ofs + length json.rest ≡ total) × (length json.rest ≤ n)

-- Behind a token, where `n` bytes were left; only an error and the end take no byte.
abbrev pub Moved : Token → ℕ → ℕ → Type 0
Moved (error_token e) m n = m ≤ n
Moved end_of_text m n = m ≤ n
Moved _ m n = m < n

abbrev pub IsLexed : ℕ → ℕ → Lexed → Type 0
IsLexed total n (token, index, json) =
    (index ≤ total) × Stands total n json × Moved token (length json.rest) n

-- `endptr` of `strtod` points into the string.
abbrev pub InString : Platform → Type 0
InString c = (s : List ℕ) → (c.strtod s).1 ≤ length s

number-IsLexed :
    (c : Platform) (total : ℕ) (json : JsonParse)
    → InString c
    → Stands total (length json.rest) json
    → IsLexed total (length json.rest) (json_next_number_token c json)
unfolding json_next_number_token
number-IsLexed c total json h s =
    ground (arith, h json.rest, length-drop (c.strtod json.rest).1 json.rest)

string-IsLexed :
    (total : ℕ) (json : JsonParse)
    → 0 < length json.rest
    → Stands total (length json.rest) json
    → Ends total
        (IsLexed total (length json.rest))
        (string_lexed json.ofs (json_next_string_token json))
string-IsLexed total json h s = go (json_next_string_token json) (next_string-TokenFits json h)
  where
    go :
        (r : StringToken)
        → TokenFits 2 json r
        → Ends total (IsLexed total (length json.rest)) (string_lexed json.ofs r)
    go (closed t j) k = omega arith
    go (failed e j) k = omega arith
    go no_fuel k = k

starts-length : (word s : List ℕ) → starts word s ≡ true → length word ≤ length s
unfolding starts
starts-length [] s h = omega arith
starts-length (c ∷ cs) [] h = ground arith
starts-length (c ∷ cs) (d ∷ ds) h = ground (arith, starts-length cs ds)

-- A word, of `n` bytes, that stands at the front.
word-IsLexed :
    (token : Token) (word : List ℕ) (total : ℕ) (json : JsonParse)
    → starts word json.rest ≡ true
    → 0 < length word
    → Stands total (length json.rest) json
    → IsLexed total (length json.rest) (token, json.ofs, advance (length word) json)
word-IsLexed token word total json e h s =
    let l = starts-length word json.rest e in
    let d = length-drop (length word) json.rest in
    (omega arith, (omega (arith, l, d), omega (arith, d)), moved token (omega (arith, l, d)))
  where
    moved :
        (t : Token)
        → length (drop (length word) json.rest) < length json.rest
        → Moved t (length (drop (length word) json.rest)) (length json.rest)
    moved (error_token e') k = omega arith
    moved end_of_text k = omega arith
    moved comma k = k
    moved _ k = k

error-IsLexed :
    (e : TokenError) (total : ℕ) (json : JsonParse)
    → Stands total (length json.rest) json
    → IsLexed total (length json.rest) (error_token e, json.ofs, json)
error-IsLexed e total json s = omega arith

word_token-IsLexed :
    (c : Platform) (cfg : JsonConfig) (total : ℕ) (json : JsonParse)
    → InString c
    → Stands total (length json.rest) json
    → IsLexed total (length json.rest) (word_token c cfg json)
unfolding word_token
word_token-IsLexed c cfg total json h s =
    let word = λ (t : Token) (w : List ℕ) (k : 0 < length w) (e : starts w json.rest ≡ true).
      word-IsLexed t w total json e k s in
    elim (Bool-cases (starts (b't' ∷ b'r' ∷ b'u' ∷ b'e' ∷ []) json.rest)) [
      | inl a ↦ rw a (word (boolean_token true) _ (omega arith) a)
      | inr a ↦ elim (Bool-cases (starts (b'f' ∷ b'a' ∷ b'l' ∷ b's' ∷ b'e' ∷ []) json.rest)) [
        | inl b ↦ rw (a, b) (word (boolean_token false) _ (omega arith) b)
        | inr b ↦ elim (Bool-cases (starts (b'n' ∷ b'u' ∷ b'l' ∷ b'l' ∷ []) json.rest)) [
          | inl d ↦ rw (a, b, d) (word null_token _ (omega arith) d)
          | inr d ↦
              elim (Bool-cases (cfg.decode_invalid_numbers && json_is_invalid_number json.rest)) [
                | inl e ↦ rw (a, b, d, e) (number-IsLexed c total json h s)
                | inr e ↦ rw (a, b, d, e) (error-IsLexed invalid_token total json s)
              ]
        ]
      ]
    ]

unknown-IsLexed :
    (c : Platform) (cfg : JsonConfig) (total : ℕ) (json : JsonParse)
    → InString c
    → 0 < length json.rest
    → Stands total (length json.rest) json
    → Ends total (IsLexed total (length json.rest)) (unknown_token c cfg json)
unfolding unknown_token
unknown-IsLexed c cfg total json h l s =
    let minus_or_digit = peek json.rest 0 == b'-' || is_digit (peek json.rest 0) in
    let strict = not cfg.decode_invalid_numbers && json_is_invalid_number json.rest in
    elim (Bool-cases (peek json.rest 0 == 34)) [
      | inl e ↦ rw e (string-IsLexed total json l s)
      | inr e ↦ elim (Bool-cases minus_or_digit) [
        | inl f ↦ elim (Bool-cases strict) [
          | inl g ↦ rw (e, f, g) (error-IsLexed invalid_number total json s)
          | inr g ↦ rw (e, f, g) (number-IsLexed c total json h s)
        ]
        | inr f ↦ rw (e, f) (word_token-IsLexed c cfg total json h s)
      ]
    ]

-- What `front_token` makes of a character, by its entry in `ch2token`.
front-IsLexed :
    (c : Platform) (cfg : JsonConfig) (total : ℕ) (json : JsonParse)
    → InString c
    → Stands total (length json.rest) json
    → Ends total (IsLexed total (length json.rest)) (front_token c cfg json)
unfolding front_token ch2token
front-IsLexed c cfg total json h s = go json.rest refl (ch2token (peek json.rest 0)) refl
  where
    go :
        (rest : List ℕ)
        → json.rest ≡ rest
        → (t : Token) → ch2token (peek json.rest 0) ≡ t
        → Ends total (IsLexed total (length json.rest)) (front_token c cfg json)
    go [] p t e = rw (ap (λ r. peek r 0) p, front_token) (omega arith)
    go (x ∷ xs) p (error_token y) e = rw (e, front_token) (omega arith)
    go (x ∷ xs) p end_of_text e = rw (e, front_token) (omega arith)
    go (x ∷ xs) p unknown e =
        rw (e, front_token) (unknown-IsLexed c cfg total json h (omega (arith, ap length p)) s)
    go (x ∷ xs) p obj_begin e =
        rw (e, front_token) (omega (arith, ap length p, length-drop 1 json.rest))
    go (x ∷ xs) p obj_end e =
        rw (e, front_token) (omega (arith, ap length p, length-drop 1 json.rest))
    go (x ∷ xs) p arr_begin e =
        rw (e, front_token) (omega (arith, ap length p, length-drop 1 json.rest))
    go (x ∷ xs) p arr_end e =
        rw (e, front_token) (omega (arith, ap length p, length-drop 1 json.rest))
    go (x ∷ xs) p colon e =
        rw (e, front_token) (omega (arith, ap length p, length-drop 1 json.rest))
    go (x ∷ xs) p comma e =
        rw (e, front_token) (omega (arith, ap length p, length-drop 1 json.rest))
    go (x ∷ xs) p whitespace e =
        rw (e, front_token) (omega (arith, ap length p, length-drop 1 json.rest))
    go (x ∷ xs) p null_token e =
        rw (e, front_token) (omega (arith, ap length p, length-drop 1 json.rest))
    go (x ∷ xs) p (string_token y) e =
        rw (e, front_token) (omega (arith, ap length p, length-drop 1 json.rest))
    go (x ∷ xs) p (number_token y) e =
        rw (e, front_token) (omega (arith, ap length p, length-drop 1 json.rest))
    go (x ∷ xs) p (boolean_token y) e =
        rw (e, front_token) (omega (arith, ap length p, length-drop 1 json.rest))

skip-Stands :
    (s : List ℕ) (ofs total : ℕ)
    → ofs + length s ≡ total
    → Stands total (length s) (skip_whitespace s ofs)
unfolding skip_whitespace
skip-Stands [] ofs total h = omega arith
skip-Stands (c ∷ cs) ofs total h = elim (Bool-cases (is_whitespace (ch2token c))) [
  | inl e ↦ rw e (omega (arith, skip-Stands cs (ofs + 1) total (omega arith)))
  | inr e ↦ rw e (omega arith)
]

IsLexed_mono : (total m n : ℕ) (l : Lexed) → m ≤ n → IsLexed total m l → IsLexed total n l
IsLexed_mono total m n (error_token e, i, json) h k = omega arith
IsLexed_mono total m n (end_of_text, i, json) h k = omega arith
IsLexed_mono total m n (obj_begin, i, json) h k = omega arith
IsLexed_mono total m n (obj_end, i, json) h k = omega arith
IsLexed_mono total m n (arr_begin, i, json) h k = omega arith
IsLexed_mono total m n (arr_end, i, json) h k = omega arith
IsLexed_mono total m n (colon, i, json) h k = omega arith
IsLexed_mono total m n (comma, i, json) h k = omega arith
IsLexed_mono total m n (whitespace, i, json) h k = omega arith
IsLexed_mono total m n (null_token, i, json) h k = omega arith
IsLexed_mono total m n (string_token x, i, json) h k = omega arith
IsLexed_mono total m n (number_token x, i, json) h k = omega arith
IsLexed_mono total m n (boolean_token x, i, json) h k = omega arith
IsLexed_mono total m n (unknown, i, json) h k = omega arith

-- The next token is found inside the text, and the parser stands behind it, a byte further at least
-- unless the token is an error or the end.
pub next_token-IsLexed :
    (c : Platform) (cfg : JsonConfig) (total n : ℕ) (json : JsonParse)
    → InString c
    → Stands total n json
    → Ends total (IsLexed total n) (json_next_token c cfg json)
unfolding json_next_token
next_token-IsLexed c cfg total n json h s =
    let skipped = skip_whitespace json.rest json.ofs in
    let k = skip-Stands json.rest json.ofs total s.0 in
    weaker (front_token c cfg skipped) (front-IsLexed c cfg total skipped h (omega arith))
  where
    weaker :
        (r : Result Lexed)
        → Ends total (IsLexed total (length (skip_whitespace json.rest json.ofs).rest)) r
        → Ends total (IsLexed total n) r
    weaker (ok l) e =
        IsLexed_mono total _ n l (omega (arith, skip-Stands json.rest json.ofs total s.0)) e
    weaker (raised x) e = e
    weaker out_of_fuel e = e
