-- ===== src/Json/Document/Tokens.antt =====
-- The token that the text of a value starts with.
use lev.Buffer.Methods.{starts}
use lev.Json.Strings.{json_append_string}
use lev.Json.Strings.RoundTrip.{at, AllBytes, next_string-append_string}
use lev.Json.Decode.{array_start, json_process_value, Reader, value_of}
use lev.Mpack.Value.{Number}
use lev.Base.{
  ℕ, List, ◌≡◌, ◌∷◌, ◌++◌, zero, suc, true, false, Bool, arith, refl, ◌+◌, ◌∙◌, ◌==◌, ◌||◌, length,
  ap, drop-append,
}
use lev.Json.Value.{Value, Platform, JsonConfig}
use lev.Json.Token.{
  Token, ok, string_token, number_token, boolean_token, Lexed, ch2token, json_next_token,
  skip_whitespace, front_token, is_digit, unknown_token, json_next_number_token, unknown,
  word_token, string_lexed, null_token, arr_end, colon, comma, obj_end,
}
use lev.Json.Document.{
  Json, null, boolean, AllBytes, IsExact, is_digit, IsDelimited, json_append_string, encoded,
  number_text,
}

module _ (c : Platform) (cfg : JsonConfig) where
  abbrev pub text : Json → List ℕ
  text = encoded (number_text c cfg)

  pub string_lexed_lem :
      (s rest : List ℕ) (ofs : ℕ)
      → AllBytes s
      → json_next_token c cfg (at (json_append_string s ++ rest) ofs)
        ≡ ok (string_token s, ofs, at rest (ofs + length (json_append_string s)))
  unfolding json_next_token skip_whitespace ch2token front_token unknown_token json_append_string
  string_lexed_lem s rest ofs h = ap (string_lexed ofs) (next_string-append_string s rest ofs h)

  numeric_unknown : (x : ℕ) → (x == b'-' || is_digit x) ≡ true → ch2token x ≡ unknown
  unfolding ch2token
  numeric_unknown x h = ground arith

  unknown_front :
      (x : ℕ) (s : List ℕ) (ofs : ℕ)
      → ch2token x ≡ unknown
      → json_next_token c cfg (at (x ∷ s) ofs) ≡ unknown_token c cfg (at (x ∷ s) ofs)
  unfolding json_next_token skip_whitespace front_token
  unknown_front x s ofs e = rw (e, skip_whitespace) (rw (e, front_token) refl)

  number_token_lem :
      (n : Number) (rest : List ℕ) (ofs : ℕ) (x : IsExact c cfg n)
      → IsDelimited rest
      → unknown_token c cfg (at ((x.first ∷ x.others) ++ rest) ofs)
        ≡ ok (number_token n, ofs, at rest (ofs + length (x.first ∷ x.others)))
  unfolding unknown_token json_next_number_token
  number_token_lem n rest ofs x d =
      let no_quote : (x.first == 34) ≡ false = ground (arith, x.numeric) in
      let moved : (suc (length x.others) == 0) ≡ false = ground arith in
      rw (no_quote, x.numeric, x.valid rest d, x.read rest d, moved)
        (ap (λ r. ok (number_token n, ofs, at r (ofs + length (x.first ∷ x.others))))
          (drop-append x.others rest))

  number_lexed_lem :
      (n : Number) (rest : List ℕ) (ofs : ℕ) (x : IsExact c cfg n)
      → IsDelimited rest
      → json_next_token c cfg (at ((x.first ∷ x.others) ++ rest) ofs)
        ≡ ok (number_token n, ofs, at rest (ofs + length (x.first ∷ x.others)))
  number_lexed_lem n rest ofs x d =
      unknown_front x.first (x.others ++ rest) ofs (numeric_unknown x.first x.numeric)
      ∙ number_token_lem n rest ofs x d

  -- A text that is one value, read from its first token on; that token starts an array's element.
  unfoldable pub ReadsAs : ℕ → ℕ → List ℕ → List ℕ → Value → Type 0
  ReadsAs left depth text rest v =
      (ofs : ℕ)
      → (l : Lexed) × (json_next_token c cfg (at (text ++ rest) ofs) ≡ ok l)
        × ((loop : Token → ℕ → Reader Value) → array_start loop l.0 l.1 l.2 ≡ loop l.0 l.1 l.2)
        × (json_process_value c cfg left depth l.0 l.1 l.2 ≡ ok (v, at rest (ofs + length text)))

  pub null-ReadsAs :
      (left depth : ℕ) (rest : List ℕ)
      → ReadsAs left depth (encoded (number_text c cfg) null) rest Value.null
  unfolding ReadsAs json_next_token skip_whitespace ch2token front_token unknown_token word_token
      starts array_start json_process_value value_of encoded
  null-ReadsAs zero depth rest ofs =
      ((null_token, ofs, at rest (ofs + 4)), refl, λ loop. refl, refl)
  null-ReadsAs (suc left) depth rest ofs =
      ((null_token, ofs, at rest (ofs + 4)), refl, λ loop. refl, refl)

  pub boolean-ReadsAs :
      (left depth : ℕ) (rest : List ℕ) (b : Bool)
      → ReadsAs left depth (encoded (number_text c cfg) (boolean b)) rest (Value.boolean b)
  unfolding ReadsAs json_next_token skip_whitespace ch2token front_token unknown_token word_token
      starts array_start json_process_value value_of encoded
  boolean-ReadsAs zero depth rest true ofs =
      ((boolean_token true, ofs, at rest (ofs + 4)), refl, λ loop. refl, refl)
  boolean-ReadsAs (suc left) depth rest true ofs =
      ((boolean_token true, ofs, at rest (ofs + 4)), refl, λ loop. refl, refl)
  boolean-ReadsAs zero depth rest false ofs =
      ((boolean_token false, ofs, at rest (ofs + 5)), refl, λ loop. refl, refl)
  boolean-ReadsAs (suc left) depth rest false ofs =
      ((boolean_token false, ofs, at rest (ofs + 5)), refl, λ loop. refl, refl)

  pub string-ReadsAs :
      (left depth : ℕ) (rest s : List ℕ)
      → AllBytes s
      → ReadsAs left depth (json_append_string s) rest (Value.string s)
  unfolding ReadsAs array_start json_process_value value_of
  string-ReadsAs zero depth rest s h ofs = (
    (string_token s, ofs, at rest (ofs + length (json_append_string s))),
    string_lexed_lem s rest ofs h,
    λ loop. refl,
    refl,
  )
  string-ReadsAs (suc left) depth rest s h ofs = (
    (string_token s, ofs, at rest (ofs + length (json_append_string s))),
    string_lexed_lem s rest ofs h,
    λ loop. refl,
    refl,
  )

  pub number-ReadsAs :
      (left depth : ℕ) (rest : List ℕ) (n : Number) (x : IsExact c cfg n)
      → IsDelimited rest
      → ReadsAs left depth (x.first ∷ x.others) rest (Value.number n)
  unfolding ReadsAs array_start json_process_value value_of
  number-ReadsAs zero depth rest n x d ofs = (
    (number_token n, ofs, at rest (ofs + length (x.first ∷ x.others))),
    number_lexed_lem n rest ofs x d,
    λ loop. refl,
    refl,
  )
  number-ReadsAs (suc left) depth rest n x d ofs = (
    (number_token n, ofs, at rest (ofs + length (x.first ∷ x.others))),
    number_lexed_lem n rest ofs x d,
    λ loop. refl,
    refl,
  )

  pub array_end :
      (rest : List ℕ) (ofs : ℕ)
      → json_next_token c cfg (at (b']' ∷ rest) ofs) ≡ ok (arr_end, ofs, at rest (ofs + 1))
  unfolding json_next_token skip_whitespace ch2token front_token
  array_end rest ofs = refl

  pub object_end :
      (rest : List ℕ) (ofs : ℕ)
      → json_next_token c cfg (at (b'}' ∷ rest) ofs) ≡ ok (obj_end, ofs, at rest (ofs + 1))
  unfolding json_next_token skip_whitespace ch2token front_token
  object_end rest ofs = refl

  pub comma_lexed :
      (rest : List ℕ) (ofs : ℕ)
      → json_next_token c cfg (at (b',' ∷ rest) ofs) ≡ ok (comma, ofs, at rest (ofs + 1))
  unfolding json_next_token skip_whitespace ch2token front_token
  comma_lexed rest ofs = refl

  pub colon_lexed :
      (rest : List ℕ) (ofs : ℕ)
      → json_next_token c cfg (at (b':' ∷ rest) ofs) ≡ ok (colon, ofs, at rest (ofs + 1))
  unfolding json_next_token skip_whitespace ch2token front_token
  colon_lexed rest ofs = refl
