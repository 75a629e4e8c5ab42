-- ===== src/Json/Document/Objects.antt =====
-- The loop of `json_parse_object_context` on the text of an object.
use lev.Json.Strings.{json_append_string, JsonParse}
use lev.Json.Strings.RoundTrip.{at, AllBytes}
use lev.Json.Decode.{
  array_start, json_process_value, Reader, value_of, raw_set, object_start, object_loop, after_key,
  after_pair, descend, json_parse_object_context,
}
use lev.Base.{
  ℕ, List, ◌≡◌, ◌∷◌, [], ◌++◌, zero, suc, true, false, arith, refl, inl, inr, ◌+◌, ◌≤◌, ◌∙◌, length,
  ap, sym, append_assoc, length-append,
}
use lev.Json.Value.{Value, Fields, Platform, JsonConfig, no_fields}
use lev.Json.Token.{
  Token, Result, ok, ◌>>=◌, string_token, Lexed, ch2token, json_next_token, skip_whitespace,
  front_token, obj_begin,
}
use lev.Json.Document.{
  Json, Members, object, no_members, member, AllBytes, IsDelimited, json_append_string, encoded,
  number_text, Unused, lua, members_length, encoded_members, lua_members,
}
use lev.Json.Document.Tables.{
  pair, fields_append, append-no_fields, append-raw_set, AllFresh, AllFresh-raw_set,
}
use lev.Json.Document.Tokens.{text, ReadsAs, string_lexed_lem, comma_lexed, colon_lexed, object_end}

module _ (c : Platform) (cfg : JsonConfig) where
  -- The loop of an object, from the first key on.
  abbrev pub ReadsMembers : ℕ → ℕ → Members → Type 0
  ReadsMembers left depth ms =
      (t : Fields) (fuel : ℕ) (rest : List ℕ) (ofs : ℕ)
      → AllFresh t ms
      → members_length ms ≤ fuel
      → let printed = encoded_members (number_text c cfg) false ms in
        (l : Lexed) × (json_next_token c cfg (at (printed ++ b'}' ∷ rest) ofs) ≡ ok l)
        × ((loop : Token → ℕ → Reader Value) → object_start loop l.0 l.1 l.2 ≡ loop l.0 l.1 l.2)
        × (object_loop c cfg (json_process_value c cfg left depth) fuel t l.0 l.1 l.2
            ≡ ok (
              Value.table (fields_append t (lua_members ms)),
              at rest (ofs + length printed + 1),
            ))

  member_text :
      (j x m r : List ℕ) → (((j ++ b':' ∷ []) ++ x) ++ m) ++ r ≡ j ++ b':' ∷ (x ++ (m ++ r))
  member_text j x m r = simp append_assoc

  member_length :
      (j x m : List ℕ) → length (((j ++ b':' ∷ []) ++ x) ++ m) ≡ length j + 1 + length x + length m
  member_length j x m = omega (
    arith,
    length-append ((j ++ b':' ∷ []) ++ x) m,
    length-append (j ++ b':' ∷ []) x,
    length-append j (b':' ∷ []),
  )

  -- A pair, up to the token behind its value.
  pair_step :
      (left depth : ℕ) (k : List ℕ) (x : Json) (t : Fields) (fuel index o : ℕ) (rest : List ℕ)
      → ((rest : List ℕ) → IsDelimited rest → ReadsAs c cfg left depth (text c cfg x) rest (lua x))
      → IsDelimited rest
      → (l : Lexed) → json_next_token c cfg (at rest (o + 1 + length (text c cfg x))) ≡ ok l
      → object_loop c cfg
          (json_process_value c cfg left depth)
          (suc fuel)
          t
          (string_token k)
          index
          (at (b':' ∷ (text c cfg x ++ rest)) o)
        ≡ after_pair
            (Value.table (raw_set k (lua x) t))
            (λ json. json_next_token c cfg json >>= λ (next, i, json').
              object_loop c cfg
                (json_process_value c cfg left depth)
                fuel
                (raw_set k (lua x) t)
                next
                i
                json')
            l.0
            l.1
            l.2
  unfolding ReadsAs object_loop after_key
  pair_step left depth k x t fuel index o rest reads d l n =
      let (l', e, s, p) = reads rest d (o + 1) in
      rw (colon_lexed c cfg (text c cfg x ++ rest) o, e, p, n) refl

  pub last_member :
      (left depth : ℕ) (k : List ℕ) (x : Json)
      → AllBytes k
      → ((rest : List ℕ) → IsDelimited rest → ReadsAs c cfg left depth (text c cfg x) rest (lua x))
      → ReadsMembers left depth (member k x no_members)
  unfolding object_start after_pair lua encoded AllFresh
  last_member left depth k x bytes reads t zero rest ofs g f = absurd (omega arith)
  last_member left depth k x bytes reads t (suc fuel) rest ofs (fresh, _) f =
      let j = json_append_string k in
      let o = ofs + length j in
      (
        (string_token k, ofs, at (b':' ∷ (text c cfg x ++ b'}' ∷ rest)) o),
        rw (member_text j (text c cfg x) [] (b'}' ∷ rest))
            (string_lexed_lem c cfg k (b':' ∷ (text c cfg x ++ b'}' ∷ rest)) ofs bytes),
        λ loop. refl,
        pair_step left depth k x t fuel ofs o (b'}' ∷ rest) reads (inr (inr (inl refl))) _
              (object_end c cfg rest (o + 1 + length (text c cfg x)))
            ∙ ap (λ (u : Fields × ℕ). ok (Value.table u.0, at rest u.1))
                (pair (sym (append-no_fields _) ∙ append-raw_set k (lua x) t no_fields fresh)
                  (omega (arith, member_length j (text c cfg x) []))),
      )

  pub more_members :
      (left depth : ℕ) (k k' : List ℕ) (x y : Json) (ms : Members)
      → AllBytes k
      → Unused k (member k' y ms)
      → ((rest : List ℕ) → IsDelimited rest → ReadsAs c cfg left depth (text c cfg x) rest (lua x))
      → ReadsMembers left depth (member k' y ms)
      → ReadsMembers left depth (member k x (member k' y ms))
  unfolding object_start after_pair lua encoded AllFresh
  more_members left depth k k' x y ms bytes u reads more t zero rest ofs g f = absurd (omega arith)
  more_members left depth k k' x y ms bytes u reads more t (suc fuel) rest ofs (fresh, g) f =
      let j = json_append_string k in
      let o = ofs + length j in
      let o₁ = o + 1 + length (text c cfg x) in
      let tail = encoded_members (number_text c cfg) false (member k' y ms) in
      let t' = raw_set k (lua x) t in
      let (l', e', s', p') =
        more t' fuel rest (o₁ + 1) (AllFresh-raw_set k (lua x) t (member k' y ms) u fresh g)
          (omega arith) in
      (
        (string_token k, ofs, at (b':' ∷ (text c cfg x ++ b',' ∷ (tail ++ b'}' ∷ rest))) o),
        rw (member_text j (text c cfg x) (b',' ∷ tail) (b'}' ∷ rest)) (
            string_lexed_lem c cfg k (b':' ∷ (text c cfg x ++ b',' ∷ (tail ++ b'}' ∷ rest))) ofs
              bytes),
        λ loop. refl,
        pair_step left depth k x t fuel ofs o (b',' ∷ (tail ++ b'}' ∷ rest)) reads (inl refl) _
              (comma_lexed c cfg (tail ++ b'}' ∷ rest) o₁)
            ∙ rw (e', p')
                (ap (λ (u : Fields × ℕ). ok (Value.table u.0, at rest u.1))
                  (pair (append-raw_set k (lua x) t (lua_members (member k' y ms)) fresh)
                    (omega (arith, member_length j (text c cfg x) (b',' ∷ tail))))),
      )

  members_length-le :
      (ms : Members) → members_length ms ≤ length (encoded_members (number_text c cfg) true ms)
  unfolding encoded
  members_length-le no_members = omega arith
  members_length-le (member k x ms) =
      let key = b',' ∷ (json_append_string k ++ b':' ∷ []) in
      omega (
        arith,
        members_length-le ms,
        length-append (key ++ text c cfg x) (encoded_members (number_text c cfg) true ms),
        length-append key (text c cfg x),
      )

  object_context_lem :
      (any : Token → ℕ → Reader Value) (json : JsonParse) (l : Lexed)
      (r : Result (Value × JsonParse))
      → json_next_token c cfg json ≡ ok l
      → ((loop : Token → ℕ → Reader Value) → object_start loop l.0 l.1 l.2 ≡ loop l.0 l.1 l.2)
      → object_loop c cfg any (suc (length json.rest)) no_fields l.0 l.1 l.2 ≡ r
      → json_parse_object_context c cfg any json ≡ r
  unfolding json_parse_object_context
  object_context_lem any json l r e s p =
      rw e (s (object_loop c cfg any (suc (length json.rest)) no_fields) ∙ p)

  pub object-ReadsAs :
      (left depth : ℕ) (k : List ℕ) (x : Json) (ms : Members) (rest : List ℕ)
      → c.checkstack (suc depth) ≡ true
      → AllFresh no_fields (member k x ms)
      → ReadsMembers left (suc depth) (member k x ms)
      → ReadsAs c cfg
          (suc left)
          depth
          (text c cfg (object (member k x ms)))
          rest
          (lua (object (member k x ms)))
  unfolding ReadsAs json_next_token skip_whitespace ch2token front_token array_start
      json_process_value value_of descend lua encoded fields_append
  object-ReadsAs left depth k x ms rest room fresh reads ofs =
      let key = json_append_string k ++ b':' ∷ [] in
      let more = encoded_members (number_text c cfg) true ms in
      let printed = encoded_members (number_text c cfg) false (member k x ms) in
      let whole : (printed ++ b'}' ∷ []) ++ rest ≡ printed ++ b'}' ∷ rest =
        append_assoc printed (b'}' ∷ []) rest in
      let (l, e, s, p) =
        reads no_fields (suc (length (printed ++ b'}' ∷ rest))) rest (ofs + 1) fresh (
          omega (
            arith,
            length-append (key ++ text c cfg x) more,
            members_length-le ms,
            length-append printed (b'}' ∷ rest),
          )) in
      (
        (obj_begin, ofs, at ((printed ++ b'}' ∷ []) ++ rest) (ofs + 1)),
        refl,
        λ loop. refl,
        rw (room, whole)
            (object_context_lem (json_process_value c cfg left (suc depth))
                (at (printed ++ b'}' ∷ rest) (ofs + 1)) l _ e s p
              ∙ ap (λ k'. ok (lua (object (member k x ms)), at rest k'))
                  (omega (arith, length-append printed (b'}' ∷ [])))),
      )

  pub empty_object-ReadsAs :
      (left depth : ℕ) (rest : List ℕ)
      → c.checkstack (suc depth) ≡ true
      → ReadsAs c cfg
          (suc left)
          depth
          (text c cfg (object no_members))
          rest
          (lua (object no_members))
  unfolding ReadsAs json_next_token skip_whitespace ch2token front_token array_start object_start
      json_process_value value_of descend json_parse_object_context lua encoded
  empty_object-ReadsAs left depth rest room ofs = (
    (obj_begin, ofs, at (b'}' ∷ rest) (ofs + 1)),
    refl,
    λ loop. refl,
    rw room (ap (λ k. ok (Value.table no_fields, at rest k)) (omega arith)),
  )

  -- An object's members, and none.
  abbrev pub ReadsTail : ℕ → ℕ → Members → Type 0
  ReadsTail left depth no_members = Unit
  ReadsTail left depth (member k x ms) = ReadsMembers left depth (member k x ms)

  pub first_member :
      (left depth : ℕ) (k : List ℕ) (x : Json) (ms : Members)
      → AllBytes k
      → Unused k ms
      → ((rest : List ℕ) → IsDelimited rest → ReadsAs c cfg left depth (text c cfg x) rest (lua x))
      → ReadsTail left depth ms
      → ReadsMembers left depth (member k x ms)
  first_member left depth k x no_members bytes u reads h = last_member left depth k x bytes reads
  first_member left depth k x (member j y ms) bytes u reads h =
      more_members left depth k j x y ms bytes u reads h
