-- ===== src/Json/Decode/Total.antt =====
-- How decoding ends: in a value, or in an error at a place of the text.
use lev.Json.Strbuf.{strbuf_fits, strbuf_fits_lem}
use lev.Json.Token.Bounds.{InString, Stands, Ends, IsLexed, Ends->>=, next_token-IsLexed}
use lev.Json.Strings.{JsonParse, peek}
use lev.Json.Decode.{
  Reader, JsonConfig, JsonParse, json_next_token, object_loop, Fields, after_element, after_key,
  after_pair, array_loop, table, raw_set, raw_set_new, after_value, array_start, descend,
  json_decode, json_parse_array_context, json_parse_object_context, json_process_value,
  object_start, value_of, no_fields, peek, decode_text, strbuf_fits, not_utf8,
}
use lev.Json.Value.{Platform, Value, JsonConfig, Fields, table, no_fields}
use lev.Base.{
  ℕ, List, arith, zero, suc, inl, inr, ◌<◌, ◌≤◌, length, Bool-cases, leb, ◌&&◌, ◌==◌, ◌||◌, ◌*◌,
  ◌≡◌, some, true, refl,
}
use lev.Json.Token.{
  Token, Result, ok, raised, out_of_fuel, string_token, number_token, boolean_token, end_of_text,
  comma, colon, json_next_token, obj_begin, obj_end, arr_begin, arr_end, null_token, Lexed,
  not_utf8,
}

-- A value and the parser behind it.
abbrev IsRead : ℕ → ℕ → Value × JsonParse → Type 0
IsRead total n (v, json) = Stands total n json

-- What reads a value from any token on.
abbrev ReadsAny : ℕ → ℕ → (Token → ℕ → Reader Value) → Type 0
ReadsAny total n any =
    (t : Token) (i : ℕ) (json : JsonParse)
    → i ≤ total
    → Stands total n json
    → Ends total (IsRead total (length json.rest)) (any t i json)

IsRead-mono :
    (total : ℕ) (r : Result (Value × JsonParse)) (m n : ℕ)
    → m ≤ n
    → Ends total (IsRead total m) r
    → Ends total (IsRead total n) r
IsRead-mono total (ok (v, j)) m n l e = omega arith
IsRead-mono total (raised x) m n l e = e
IsRead-mono total out_of_fuel m n l e = e

module _ (c : Platform) (cfg : JsonConfig) (total : ℕ) (h : InString c) where
  after_key-Ends :
      (n : ℕ) (l : Lexed)
      → IsLexed total n l
      → Ends total (λ (u, json'). Stands total n json') (after_key l.0 l.1 l.2)
  unfolding after_key
  after_key-Ends n (colon, i, j) k = k.1
  after_key-Ends n (_, i, j) k = k.0

  -- What stands behind a comma has a byte less.
  abbrev ContinuesBelow : ℕ → Reader Value → Type 0
  ContinuesBelow n more =
      (json : JsonParse) (m : ℕ)
      → suc m ≤ n
      → Stands total m json
      → Ends total (IsRead total n) (more json)

  after_pair-Ends :
      (n : ℕ) (v : Value) (more : Reader Value) (l : Lexed)
      → ContinuesBelow n more
      → IsLexed total n l
      → Ends total (IsRead total n) (after_pair v more l.0 l.1 l.2)
  unfolding after_pair
  after_pair-Ends n v more (obj_end, i, j) g k = k.1
  after_pair-Ends n v more (comma, i, j) g k = g j (length j.rest) k.2 (omega arith)
  after_pair-Ends n v more (_, i, j) g k = k.0

  after_element-Ends :
      (n : ℕ) (v : Value) (more : Reader Value) (l : Lexed)
      → ContinuesBelow n more
      → IsLexed total n l
      → Ends total (IsRead total n) (after_element v more l.0 l.1 l.2)
  unfolding after_element
  after_element-Ends n v more (arr_end, i, j) g k = k.1
  after_element-Ends n v more (comma, i, j) g k = g j (length j.rest) k.2 (omega arith)
  after_element-Ends n v more (_, i, j) g k = k.0

  next :
      (n : ℕ) (json : JsonParse)
      → Stands total n json
      → Ends total (IsLexed total n) (json_next_token c cfg json)
  next n json s = next_token-IsLexed c cfg total n json h s

  -- The contexts of an object and an array.
  abbrev Contexts : Reader Value → Type 0
  Contexts context =
      (json : JsonParse)
      → Stands total (length json.rest) json
      → Ends total (IsRead total (length json.rest)) (context json)

  module _ (any : Token → ℕ → Reader Value) (reads : (n : ℕ) → ReadsAny total n any) where
    value-Ends :
        (n : ℕ) (l : Lexed) → IsLexed total n l → Ends total (IsRead total n) (any l.0 l.1 l.2)
    value-Ends n (t, i, j) k =
        IsRead-mono total (any t i j) (length j.rest) n (k.1).1 (reads n t i j k.0 k.1)

    object_loop-Ends :
        (fuel n : ℕ) (fs : Fields) (t : Token) (i : ℕ) (json : JsonParse)
        → i ≤ total
        → Stands total n json
        → n < fuel
        → Ends total (IsRead total n) (object_loop c cfg any fuel fs t i json)
    unfolding object_loop
    object_loop-Ends zero n fs t i json hi s f = absurd (omega arith)
    object_loop-Ends (suc fuel) n fs (string_token key) i json hi s f =
        Ends->>= total (IsLexed total n) _ (json_next_token c cfg json) _ (next n json s) λ l₁ k₁.
          Ends->>= total (λ (u, json'). Stands total n json') _ (after_key l₁.0 l₁.1 l₁.2) _
            (after_key-Ends n l₁ k₁)
            λ (u, j₂) k₂.
              Ends->>= total (IsLexed total n) _ (json_next_token c cfg j₂) _ (next n j₂ k₂)
                λ l₃ k₃.
                  Ends->>= total (IsRead total n) _ (any l₃.0 l₃.1 l₃.2) _ (value-Ends n l₃ k₃)
                    λ (v, j₄) k₄.
                      Ends->>= total (IsLexed total n) _ (json_next_token c cfg j₄) _ (next n j₄ k₄)
                        λ l₅ k₅.
                          after_pair-Ends n (table (raw_set key v fs)) _ l₅
                            (λ j₆ m less k₆. IsRead-mono total _ m n (omega arith) (
                              Ends->>= total (IsLexed total m) _ (json_next_token c cfg j₆) _
                                (next m j₆ k₆)
                                λ l₇ k₇.
                                  object_loop-Ends fuel m (raw_set key v fs) l₇.0 l₇.1 l₇.2 k₇.0
                                    k₇.1 (omega arith)))
                            k₅
    object_loop-Ends (suc fuel) n fs _ i json hi s f = hi

    array_loop-Ends :
        (fuel n e : ℕ) (fs : Fields) (t : Token) (i : ℕ) (json : JsonParse)
        → i ≤ total
        → Stands total n json
        → n < fuel
        → Ends total (IsRead total n) (array_loop c cfg any fuel e fs t i json)
    unfolding array_loop
    array_loop-Ends zero n e fs t i json hi s f = absurd (omega arith)
    array_loop-Ends (suc fuel) n e fs t i json hi s f =
        Ends->>= total (IsRead total n) _ (any t i json) _
          (IsRead-mono total (any t i json) (length json.rest) n s.1 (reads n t i json hi s))
          λ (v, j₁) k₁.
            Ends->>= total (IsLexed total n) _ (json_next_token c cfg j₁) _ (next n j₁ k₁) λ l₂ k₂.
              after_element-Ends n (table (raw_set_new e v fs)) _ l₂
                (λ j₃ m less k₃. IsRead-mono total _ m n (omega arith) (
                  Ends->>= total (IsLexed total m) _ (json_next_token c cfg j₃) _ (next m j₃ k₃)
                    λ l₄ k₄.
                      array_loop-Ends fuel m (suc e) (raw_set_new e v fs) l₄.0 l₄.1 l₄.2 k₄.0 k₄.1
                        (omega arith)))
                k₂

    object_start-Ends :
        (fuel n : ℕ) (l : Lexed)
        → IsLexed total n l
        → n < fuel
        → Ends total
            (IsRead total n)
            (object_start (object_loop c cfg any fuel no_fields) l.0 l.1 l.2)
    unfolding object_start
    object_start-Ends fuel n (obj_end, i, j) k f = k.1
    object_start-Ends fuel n (t, i, j) k f = object_loop-Ends fuel n no_fields t i j k.0 k.1 f

    array_start-Ends :
        (fuel n : ℕ) (l : Lexed)
        → IsLexed total n l
        → n < fuel
        → Ends total
            (IsRead total n)
            (array_start (array_loop c cfg any fuel 1 no_fields) l.0 l.1 l.2)
    unfolding array_start
    array_start-Ends fuel n (arr_end, i, j) k f = k.1
    array_start-Ends fuel n (t, i, j) k f = array_loop-Ends fuel n 1 no_fields t i j k.0 k.1 f

    object-Contexts : Contexts (json_parse_object_context c cfg any)
    unfolding json_parse_object_context
    object-Contexts json s =
        Ends->>= total (IsLexed total (length json.rest)) _ (json_next_token c cfg json) _
          (next (length json.rest) json s)
          λ l k. object_start-Ends (suc (length json.rest)) (length json.rest) l k (omega arith)

    array-Contexts : Contexts (json_parse_array_context c cfg any)
    unfolding json_parse_array_context
    array-Contexts json s =
        Ends->>= total (IsLexed total (length json.rest)) _ (json_next_token c cfg json) _
          (next (length json.rest) json s)
          λ l k. array_start-Ends (suc (length json.rest)) (length json.rest) l k (omega arith)

  descend-Contexts :
      (depth : ℕ) (context : Reader Value)
      → Contexts context
      → Contexts (descend c cfg depth context)
  unfolding descend
  descend-Contexts depth context k json s = elim (Bool-cases (c.checkstack depth)) [
    | inl e ↦ rw e (k json s)
    | inr e ↦ rw e (omega arith)
  ]

  value_of-Ends :
      (object array : Reader Value)
      → Contexts object
      → Contexts array
      → (n : ℕ) → ReadsAny total n (value_of c cfg object array)
  unfolding value_of
  value_of-Ends object array ko ka n obj_begin i json hi s = ko json (omega arith)
  value_of-Ends object array ko ka n arr_begin i json hi s = ka json (omega arith)
  value_of-Ends object array ko ka n (string_token x) i json hi s = omega arith
  value_of-Ends object array ko ka n (number_token x) i json hi s = omega arith
  value_of-Ends object array ko ka n (boolean_token x) i json hi s = omega arith
  value_of-Ends object array ko ka n null_token i json hi s = omega arith
  value_of-Ends object array ko ka n _ i json hi s = hi

  process_value-Ends : (left depth n : ℕ) → ReadsAny total n (json_process_value c cfg left depth)
  unfolding json_process_value
  process_value-Ends zero depth n =
      value_of-Ends _ _ (λ json s. omega arith) (λ json s. omega arith) n
  process_value-Ends (suc left) depth n =
      value_of-Ends _ _
        (descend-Contexts (suc depth) _ (
          object-Contexts (json_process_value c cfg left (suc depth))
            (process_value-Ends left (suc depth))))
        (descend-Contexts (suc depth) _ (
          array-Contexts (json_process_value c cfg left (suc depth))
            (process_value-Ends left (suc depth))))
        n

after_value-Ends :
    (total n : ℕ) (v : Value) (l : Lexed)
    → IsLexed total n l
    → Ends total (λ w. Unit) (after_value v l.0 l.1)
unfolding after_value
after_value-Ends total n v (end_of_text, i, j) k = tt
after_value-Ends total n v (_, i, j) k = k.0

-- `json_decode` ends on every text of fewer than 2^20 bytes, also where the model has fuel: with a
-- value, or with an error whose character lies in the text or one behind it, and it has a block for its
-- strings. `strtod` is only asked to stop inside its string.
pub decode-Ends :
    (c : Platform) (cfg : JsonConfig) (text : List ℕ)
    → InString c
    → length text < 1024 * 1024
    → (r : Result Value) × (json_decode c cfg text ≡ some r) × Ends (length text) (λ v. Unit) r
unfolding json_decode decode_text
decode-Ends c cfg text h small =
    let total = length text in
    let fits : strbuf_fits (length text) ≡ true = strbuf_fits_lem (length text) small in
    elim (Bool-cases (leb 2 (length text) && (peek text 0 == 0 || peek text 1 == 0))) [
      | inl e ↦ (raised not_utf8, rw e refl, tt)
      | inr e ↦ (
        decode_text c cfg text,
        rw (e, fits) refl,
        Ends->>= total (IsLexed total total) _
            (json_next_token c cfg (record { rest = text; ofs = 0 })) _
            (next_token-IsLexed c cfg total total (record { rest = text; ofs = 0 }) h (omega arith))
            λ l₁ k₁.
              Ends->>= total (IsRead total total) _
                (json_process_value c cfg cfg.decode_max_depth 0 l₁.0 l₁.1 l₁.2) _
                (IsRead-mono total _ _ total (k₁.1).1 (
                  process_value-Ends c cfg total h cfg.decode_max_depth 0 total l₁.0 l₁.1 l₁.2 k₁.0
                    k₁.1))
                λ (v, j₂) k₂.
                  Ends->>= total (IsLexed total total) _ (json_next_token c cfg j₂) _
                    (next_token-IsLexed c cfg total total j₂ h k₂)
                    λ l₃ k₃. after_value-Ends total total v l₃ k₃,
      )
    ]
