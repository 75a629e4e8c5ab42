-- ===== src/Mpack/Reader/Total.antt =====
-- What it is for a reader to end within its input; each part of the reader.
use lev.Base.Int.{pos}
use lev.Base.Bytes.{from_be}
use lev.Mpack.Reader.{
  ReadBuffer, Reader, Result, claim, read_number, read_string, unpack_anytype, Source, failed,
  in_map, ok, out_of_fuel, read_sized, unpack_array, unpack_fields, unpack_from, unpack_items,
  unpack_map, unpack_tagged, ◌>>=◌, err_in_map, is_key, rounds, raised, Unpacked,
  msgpack_unpack_api, mprbuf_init, unpacked, nothing, nil_only, signed, Fields, InBlock, no_fields,
  read_word, unpack_bytes, api_in, lua_rawset, read_word_lem,
}
use mathlib.Core.Path.{subst}
use lev.Base.{
  ℕ, zero, suc, ◌+◌, ◌^◌, ◌<◌, ◌≤◌, ◌≡◌, ◌≢◌, refl, ap, Bool, true, false, Option, none, some, List,
  [], ◌∷◌, ltb, arith, if◌then◌else◌, length, split_at, split_at-length, bit_and, ◌==◌,
}
use lev.Mpack.Value.{Value, Conversions, Number, integer, Fields, no_fields}

-- The run ended within its fuel, and `P` holds of its result if it has one.
pub data Ends {ℓ κ} {A : Type ℓ} (P : A → Type κ) : Result A → Type (ℓ ⊔ κ) where
  done : {a : A} → P a → Ends P (ok a)
  on_error : Ends P failed
  on_map_error : Ends P err_in_map
  on_raise : Ends P raised

module _ {ℓ κ} {A : Type ℓ} {P : A → Type κ} where
  pub Ends-ne-out_of_fuel : {r : Result A} → Ends P r → r ≢ out_of_fuel
  Ends-ne-out_of_fuel (done h) = cc
  Ends-ne-out_of_fuel on_error = cc
  Ends-ne-out_of_fuel on_map_error = cc
  Ends-ne-out_of_fuel on_raise = cc

  pub Ends-ok : {r : Result A} {a : A} → Ends P r → r ≡ ok a → P a
  Ends-ok (done h) e = subst P (cc) h
  Ends-ok on_error e = cc
  Ends-ok on_map_error e = cc
  Ends-ok on_raise e = cc

  Ends-in_map : {r : Result A} → Ends P r → Ends P (in_map r)
  Ends-in_map (done h) = done h
  Ends-in_map on_error = on_map_error
  Ends-in_map on_map_error = on_map_error
  Ends-in_map on_raise = on_raise

  Ends-if : (b : Bool) {x y : Result A} → Ends P x → Ends P y → Ends P (if b then x else y)
  Ends-if true hx hy = hx
  Ends-if false hx hy = hy

  Ends-bind {ℓ' κ'} :
      {B : Type ℓ'} {Q : B → Type κ'} {r : Result A} {g : A → Result B}
      → Ends P r
      → ((a : A) → P a → Ends Q (g a))
      → Ends Q (r >>= g)
  Ends-bind (done {a} h) k = k a h
  Ends-bind on_error k = on_error
  Ends-bind on_map_error k = on_map_error
  Ends-bind on_raise k = on_raise

-- From `b` to `b'`, `least` bytes at least were read, and the rest is what is left of the input.
abbrev pub Advances : ReadBuffer → ℕ → ReadBuffer → Type 0
Advances b least b' = (b'.ofs + length b'.rest ≡ b.ofs + length b.rest) × (b.ofs + least ≤ b'.ofs)

abbrev EndsFrom {ℓ} : {A : Type ℓ} → ReadBuffer → ℕ → Result (A × ReadBuffer) → Type ℓ
EndsFrom b least r = Ends (λ p. Advances b least p.1) r

claim-Ends : (k : ℕ) (b : ReadBuffer) → EndsFrom b k (claim k b)
unfolding claim
claim-Ends k b = go (split_at k b.rest) refl
  where
    go :
        (o : Option (List ℕ × List ℕ))
        → split_at k b.rest ≡ o
        → EndsFrom b k (elim o as (λ _. Result (List ℕ × ReadBuffer)) [
          | none ↦ failed
          | some (s, rest) ↦ ok (s, record b { rest = rest; ofs = b.ofs + k })
        ])
    go none e = on_error
    go (some (s, rest)) e = done (omega (arith, split_at-length k b.rest s rest e))

string-Ends : (mb : Option Source) (k : ℕ) (b : ReadBuffer) → EndsFrom b 0 (read_string mb k b)
unfolding read_string
string-Ends mb k b = Ends-bind (claim-Ends k b) (λ p h. done (omega arith))

number-Ends : (g : ℕ → Number) (k : ℕ) (b : ReadBuffer) → EndsFrom b 0 (read_number g k b)
unfolding read_number
number-Ends g k b = Ends-bind (claim-Ends k b) (λ p h. done (omega arith))

word-Ends : (g : ℕ → Number) (b : ReadBuffer) → EndsFrom b 0 (read_word g b)
word-Ends g b = rw (read_word_lem g b) (number-Ends g 4 b)

-- What follows on a first step takes what that leaves.
Advances-trans :
    (b b' : ReadBuffer) (least : ℕ) {A : Type 0} {r : Result (A × ReadBuffer)}
    → Advances b least b'
    → EndsFrom b' 0 r
    → EndsFrom b least r
Advances-trans b b' least h (done k) = done (omega arith)
Advances-trans b b' least h on_error = on_error
Advances-trans b b' least h on_map_error = on_map_error
Advances-trans b b' least h on_raise = on_raise

module _ (f : ℕ) (any : Reader Value)
    (any_ends : (b : ReadBuffer) → length b.rest < f → EndsFrom b 1 (any b)) where
  items-Ends : (n : ℕ) (b : ReadBuffer) → length b.rest < f → EndsFrom b 0 (unpack_items any n b)
  unfolding unpack_items
  items-Ends zero b h = done (omega arith)
  items-Ends (suc n) b h =
      Ends-bind (any_ends b h)
        λ p k. Ends-bind (items-Ends n p.1 (omega arith)) λ q l. done (omega arith)

  fields-Ends :
      (n : ℕ) (t : Fields) (b : ReadBuffer)
      → length b.rest < f
      → EndsFrom b 0 (unpack_fields any n t b)
  unfolding unpack_fields
  fields-Ends zero t b h = done (omega arith)
  fields-Ends (suc n) t b h =
      Ends-bind (Ends-in_map (any_ends (record b { map_keying = true }) h)) λ p k.
        Ends-bind (Ends-in_map (any_ends (record p.1 { map_keying = false }) (omega arith))) λ q l.
          Ends-if (is_key p.0)
            (Advances-trans b q.1 0 (omega arith)
              (fields-Ends n (lua_rawset p.0 q.0 t) q.1 (omega arith)))
            on_raise

  array-Ends : (n : ℕ) (b : ReadBuffer) → length b.rest < f → EndsFrom b 0 (unpack_array any n b)
  unfolding unpack_array
  array-Ends n b h = Ends-bind (items-Ends (rounds n) b h) λ p k. done k

  map-Ends : (n : ℕ) (b : ReadBuffer) → length b.rest < f → EndsFrom b 0 (unpack_map any n b)
  unfolding unpack_map
  map-Ends n b h = Ends-bind (fields-Ends (rounds n) no_fields b h) λ p k. done k

  sized-Ends :
      (g : ℕ → Reader Value) (k : ℕ) (b : ReadBuffer)
      → ((n : ℕ) (b : ReadBuffer) → length b.rest < f → EndsFrom b 0 (g n b))
      → length b.rest < f
      → EndsFrom b 0 (read_sized g k b)
  unfolding read_sized
  sized-Ends g k b hg h =
      Ends-bind (claim-Ends k b)
        λ p q. Advances-trans b p.1 0 (omega arith) (hg (from_be 0 p.0) p.1 (omega arith))

  long_string-Ends :
      (mb : Option Source) (k : ℕ) (b : ReadBuffer)
      → EndsFrom b 0 (claim k b >>= λ (s, b'). read_string mb (from_be 0 s) b')
  long_string-Ends mb k b =
      Ends-bind (claim-Ends k b)
        λ p q. Advances-trans b p.1 0 (omega arith) (string-Ends mb (from_be 0 p.0) p.1)

  tagged-Ends :
      (c : Conversions) (mb : Option Source) (t : ℕ) (b : ReadBuffer)
      → length b.rest < f
      → EndsFrom b 0 (unpack_tagged c mb any t b)
  unfolding unpack_tagged
  tagged-Ends c mb t b h =
      let here : Advances b 0 b = omega arith in
      (Ends-if (t == 0xc0) (done here) (
        Ends-if (t == 0xc2) (done here) (
          Ends-if (t == 0xc3) (done here) (
            Ends-if (t == 0xca) (number-Ends (λ w. c.of_float w) 4 b) (
              Ends-if (t == 0xcb) (number-Ends (λ w. c.of_double w) 8 b) (
                Ends-if (t == 0xcc) (number-Ends (λ w. integer (pos w)) 1 b) (
                  Ends-if (t == 0xcd) (number-Ends (λ w. integer (pos w)) 2 b) (
                    Ends-if (t == 0xce) (word-Ends (λ w. integer (pos w)) b) (
                      Ends-if (t == 0xcf) (number-Ends (λ w. c.of_long_long (pos w)) 8 b) (
                        Ends-if (t == 0xd0) (number-Ends (λ w. integer (signed (2 ^ 7) w)) 1 b) (
                          Ends-if (t == 0xd1) (number-Ends (λ w. integer (signed (2 ^ 15) w)) 2 b) (
                            Ends-if (t == 0xd2) (word-Ends (λ w. integer (signed (2 ^ 31) w)) b) (
                              Ends-if (t == 0xd3)
                                (number-Ends (λ w. c.of_long_long (signed (2 ^ 63) w)) 8 b)
                                (Ends-if (t == 0xda) (long_string-Ends mb 2 b) (
                                  Ends-if (t == 0xdb) (long_string-Ends mb 4 b) (
                                    Ends-if (t == 0xdc)
                                      (sized-Ends (unpack_array any) 2 b array-Ends h)
                                      (Ends-if (t == 0xdd)
                                        (sized-Ends (unpack_array any) 4 b array-Ends h)
                                        (Ends-if (t == 0xde)
                                          (sized-Ends (unpack_map any) 2 b map-Ends h)
                                          (Ends-if (t == 0xdf)
                                            (sized-Ends (unpack_map any) 4 b map-Ends h)
                                            on_error)))))))))))))))))))

  from-Ends :
      (c : Conversions) (mb : Option Source) (t : ℕ) (b : ReadBuffer)
      → length b.rest < f
      → EndsFrom b 0 (unpack_from c mb any t b)
  unfolding unpack_from
  from-Ends c mb t b h =
      let here : Advances b 0 b = omega arith in
      Ends-if (ltb t 0x80) (done here) (
        Ends-if (ltb t 0x90) (map-Ends (bit_and t 0xf) b h) (
          Ends-if (ltb t 0xa0) (array-Ends (bit_and t 0xf) b h) (
            Ends-if (ltb t 0xc0) (string-Ends mb (bit_and t 0x1f) b)
              (Ends-if (ltb 0xdf t) (done here) (tagged-Ends c mb t b h)))))

first_byte-Ends :
    (b : ReadBuffer) (t : ℕ) (rest : List ℕ) {r : Result (Value × ReadBuffer)}
    → b.rest ≡ t ∷ rest
    → EndsFrom (record b { rest = rest; ofs = b.ofs + 1 }) 0 r
    → EndsFrom b 1 r
first_byte-Ends b t rest e (done h) = done (omega (arith, ap length e))
first_byte-Ends b t rest e on_error = on_error
first_byte-Ends b t rest e on_map_error = on_map_error
first_byte-Ends b t rest e on_raise = on_raise

-- With more fuel than bytes the reader ends, and what it has read is a part of the input.
pub unpack-Ends :
    (c : Conversions) (mb : Option Source) (f : ℕ) (b : ReadBuffer)
    → length b.rest < f
    → Ends (λ p. Advances b 1 p.1) (unpack_anytype c mb f b)
unfolding unpack_anytype
unpack-Ends c mb zero b h = absurd (omega arith)
unpack-Ends c mb (suc f) b h = go b.rest refl (unpack-Ends c mb f)
  where
    go :
        (l : List ℕ)
        → b.rest ≡ l
        → ((b' : ReadBuffer) → length b'.rest < f → EndsFrom b' 1 (unpack_anytype c mb f b'))
        → EndsFrom b 1 (elim l as (λ _. Result (Value × ReadBuffer)) [
          | [] ↦ failed
          | t ∷ rest ↦
              unpack_from c mb (unpack_anytype c mb f) t (record b { rest = rest; ofs = b.ofs + 1 })
        ])
    go [] e ih = on_error
    go (t ∷ rest) e ih = first_byte-Ends b t rest e (
        from-Ends f (unpack_anytype c mb f) ih c mb t (record b { rest = rest; ofs = b.ofs + 1 })
          (omega (arith, ap length e)))

abbrev pub Within : ℕ → Unpacked → Type 0
Within n (unpacked ofs v) = (0 < ofs) × (ofs ≤ n)
Within n nothing = Unit
Within n nil_only = n ≡ 0

bytes-Ends :
    (c : Conversions) (src : Source) (bs : List ℕ)
    → Ends (Within (length bs)) (unpack_bytes c src bs)
unfolding unpack_bytes
bytes-Ends c src [] = done refl
bytes-Ends c src (t ∷ ts) =
    go (unpack-Ends c (some src) (suc (suc (length ts))) (mprbuf_init (t ∷ ts)) (omega arith))
  where
    go :
        {r : Result (Value × ReadBuffer)}
        → Ends (λ p. Advances (mprbuf_init (t ∷ ts)) 1 p.1) r
        → Ends (Within (length (t ∷ ts))) (elim r as (λ _. Result Unpacked) [
          | ok (v, b) ↦ ok (unpacked b.ofs v)
          | failed ↦ ok nothing
          | err_in_map ↦ err_in_map
          | raised ↦ raised
          | out_of_fuel ↦ out_of_fuel
        ])
    go (done h) = done (omega arith)
    go on_error = done tt
    go on_map_error = on_map_error
    go on_raise = on_raise

-- On data that lie in the block, the model of `unpack` does not run out of fuel and no assertion fails.
-- It comes to a value with a count of at least 1 and at most the length of the data, to nil, to a Lua
-- error, or to an error inside a map (`err_in_map`), where what the program then does is not followed.
pub unpack-total :
    (c : Conversions) (src : Source) (bs : List ℕ)
    → InBlock src (length bs)
    → (r : Result Unpacked) × (msgpack_unpack_api c src bs ≡ some r) × Ends (Within (length bs)) r
unpack-total c src bs h = (unpack_bytes c src bs, api_in c src bs h, bytes-Ends c src bs)
