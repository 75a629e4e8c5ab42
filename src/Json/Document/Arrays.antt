-- ===== src/Json/Document/Arrays.antt =====
-- The loop of `json_parse_array_context` on the text of an array.
use lev.Json.Strings.{JsonParse}
use lev.Json.Strings.RoundTrip.{at}
use lev.Json.Decode.{
  array_start, json_process_value, Reader, value_of, array_loop, raw_set_new, after_element,
  descend, json_parse_array_context,
}
use lev.Base.{
  ℕ, List, ◌≡◌, ◌∷◌, [], ◌++◌, zero, suc, true, false, arith, refl, inl, inr, ◌+◌, ◌≤◌, ◌∙◌, length,
  ap, append-nil, sym, append_assoc, length-append,
}
use lev.Json.Value.{Value, Fields, Platform, JsonConfig, no_fields}
use lev.Json.Token.{
  Token, Result, ok, Lexed, ch2token, json_next_token, skip_whitespace, front_token, arr_begin,
}
use lev.Json.Document.{
  Json, Items, array, no_items, item, IsDelimited, encoded, number_text, items_length,
  encoded_items, lua, lua_items,
}
use lev.Json.Document.Tables.{pair, fields_append, append-raw_set_new, append-no_fields}
use lev.Json.Document.Tokens.{text, ReadsAs, comma_lexed, array_end}

module _ (c : Platform) (cfg : JsonConfig) where
  -- The loop of an array, from the first token of an element on.
  abbrev pub ReadsItems : ℕ → ℕ → Items → Type 0
  ReadsItems left depth xs =
      (t : Fields) (i fuel : ℕ) (rest : List ℕ) (ofs : ℕ)
      → items_length xs ≤ fuel
      → let printed = encoded_items (number_text c cfg) false xs in
        (l : Lexed) × (json_next_token c cfg (at (printed ++ b']' ∷ rest) ofs) ≡ ok l)
        × ((loop : Token → ℕ → Reader Value) → array_start loop l.0 l.1 l.2 ≡ loop l.0 l.1 l.2)
        × (array_loop c cfg (json_process_value c cfg left depth) fuel i t l.0 l.1 l.2
            ≡ ok (
              Value.table (fields_append t (lua_items i xs)),
              at rest (ofs + length printed + 1),
            ))

  -- The last element, and one with more behind it.
  pub last_item :
      (left depth : ℕ) (x : Json)
      → ((rest : List ℕ) → IsDelimited rest → ReadsAs c cfg left depth (text c cfg x) rest (lua x))
      → ReadsItems left depth (item x no_items)
  unfolding ReadsAs array_loop after_element lua encoded
  last_item left depth x reads t i zero rest ofs f = absurd (omega arith)
  last_item left depth x reads t i (suc fuel) rest ofs f =
      let (l, e, s, p) = reads (b']' ∷ rest) (inr (inl refl)) ofs in
      (
        l,
        rw (append-nil (text c cfg x)) e,
        s,
        rw (p, array_end c cfg rest (ofs + length (text c cfg x)), append-nil (text c cfg x))
            (ap (λ u. ok (Value.table u, at rest (ofs + length (text c cfg x) + 1)))
              (sym (append-no_fields _) ∙ append-raw_set_new i (lua x) t no_fields)),
      )

  pub more_items :
      (left depth : ℕ) (x y : Json) (ys : Items)
      → ((rest : List ℕ) → IsDelimited rest → ReadsAs c cfg left depth (text c cfg x) rest (lua x))
      → ReadsItems left depth (item y ys)
      → ReadsItems left depth (item x (item y ys))
  unfolding ReadsAs array_loop after_element lua encoded
  more_items left depth x y ys reads more t i zero rest ofs f = absurd (omega arith)
  more_items left depth x y ys reads more t i (suc fuel) rest ofs f =
      let tail = encoded_items (number_text c cfg) false (item y ys) in
      let (l, e, s, p) = reads (b',' ∷ (tail ++ b']' ∷ rest)) (inl refl) ofs in
      let o₁ = ofs + length (text c cfg x) in
      let (l', e', s', p') =
        more (raw_set_new i (lua x) t) (suc i) fuel rest (o₁ + 1) (omega arith) in
      (
        l,
        rw (append_assoc (text c cfg x) (b',' ∷ tail) (b']' ∷ rest)) e,
        s,
        rw (p, comma_lexed c cfg (tail ++ b']' ∷ rest) o₁, e', p')
            (ap (λ (u : Fields × ℕ). ok (Value.table u.0, at rest u.1))
              (pair (append-raw_set_new i (lua x) t (lua_items (suc i) (item y ys)))
                (omega (arith, length-append (text c cfg x) (b',' ∷ tail))))),
      )

  items_length-le :
      (xs : Items) → items_length xs ≤ length (encoded_items (number_text c cfg) true xs)
  unfolding encoded
  items_length-le no_items = omega arith
  items_length-le (item x xs) = omega (
    arith,
    items_length-le xs,
    length-append (b',' ∷ text c cfg x) (encoded_items (number_text c cfg) true xs),
  )

  array_context_lem :
      (any : Token → ℕ → Reader Value) (json : JsonParse) (l : Lexed)
      (r : Result (Value × JsonParse))
      → json_next_token c cfg json ≡ ok l
      → ((loop : Token → ℕ → Reader Value) → array_start loop l.0 l.1 l.2 ≡ loop l.0 l.1 l.2)
      → array_loop c cfg any (suc (length json.rest)) 1 no_fields l.0 l.1 l.2 ≡ r
      → json_parse_array_context c cfg any json ≡ r
  unfolding json_parse_array_context
  array_context_lem any json l r e s p =
      rw e (s (array_loop c cfg any (suc (length json.rest)) 1 no_fields) ∙ p)

  pub array-ReadsAs :
      (left depth : ℕ) (x : Json) (xs : Items) (rest : List ℕ)
      → c.checkstack (suc depth) ≡ true
      → ReadsItems left (suc depth) (item x xs)
      → ReadsAs c cfg
          (suc left)
          depth
          (text c cfg (array (item x xs)))
          rest
          (lua (array (item x xs)))
  unfolding ReadsAs json_next_token skip_whitespace ch2token front_token array_start
      json_process_value value_of descend json_parse_array_context lua encoded fields_append
  array-ReadsAs left depth x xs rest room reads ofs =
      let printed = encoded_items (number_text c cfg) false (item x xs) in
      let whole : (printed ++ b']' ∷ []) ++ rest ≡ printed ++ b']' ∷ rest =
        append_assoc printed (b']' ∷ []) rest in
      let size = length-append (text c cfg x) (encoded_items (number_text c cfg) true xs) in
      let (l, e, s, p) =
        reads no_fields 1 (suc (length (printed ++ b']' ∷ rest))) rest (ofs + 1)
          (omega (arith, size, items_length-le xs, length-append printed (b']' ∷ rest))) in
      (
        (arr_begin, ofs, at ((printed ++ b']' ∷ []) ++ rest) (ofs + 1)),
        refl,
        λ loop. refl,
        rw (room, whole)
            (array_context_lem (json_process_value c cfg left (suc depth))
                (at (printed ++ b']' ∷ rest) (ofs + 1)) l _ e s p
              ∙ ap (λ k. ok (lua (array (item x xs)), at rest k))
                  (omega (arith, length-append printed (b']' ∷ [])))),
      )

  -- An array's elements, and none.
  abbrev pub ReadsTail : ℕ → ℕ → Items → Type 0
  ReadsTail left depth no_items = Unit
  ReadsTail left depth (item x xs) = ReadsItems left depth (item x xs)

  pub first_item :
      (left depth : ℕ) (x : Json) (xs : Items)
      → ((rest : List ℕ) → IsDelimited rest → ReadsAs c cfg left depth (text c cfg x) rest (lua x))
      → ReadsTail left depth xs
      → ReadsItems left depth (item x xs)
  first_item left depth x no_items reads h = last_item left depth x reads
  first_item left depth x (item y ys) reads h = more_items left depth x y ys reads h
