-- ===== src/Mpack/Reader.antt =====
-- The reader of src/lev_mpack.c: `mprbuf_unpack_anytype` with its arrays and maps, and
-- `msgpack_unpack_api`.
pub mod Numbers
pub mod Fronts
pub mod Total
use lev.Base.{
  ℕ, zero, suc, ◌+◌, ◌-◌, ◌^◌, Bool, true, false, Option, none, some, List, [], ◌∷◌, ltb, ◌==◌,
  if◌then◌else◌, length, split_at, bit_and, not, leb, take, ◌≡◌, ◌≤◌, arith, ◌&&◌, ◌++◌, ap, refl,
  split_at-length,
}
use lev.Base.Int.{ℤ, pos, negsuc}
use lev.Base.Bytes.{from_be}
use lev.Mpack.Value.{
  Number, integer, double, Value, Items, Fields, nil, boolean, number, string, buffer, table,
  no_items, item, no_fields, field, Conversions, is_nan,
}

-- The block behind the buffer that is read: the `until` of a slice of it that is asked for with
-- length 0 (`nbytes`, or `size` if that is 0), its bytes from the start of the data on, the offset
-- of the data in the block, and `size`.
pub record Source : Type 0 where
  pub whole : ℕ
  pub memory : ℕ → ℕ
  pub slice : ℕ
  pub size : ℕ

-- `mprbuf_t`: the bytes from `ofs` on, the offset, and `map_keying`. `mb` does not change and is an
-- argument; `err` is the outcome `failed`.
pub record ReadBuffer : Type 0 where
  pub rest : List ℕ
  pub ofs : ℕ
  pub map_keying : Bool

-- `ok`: a value was pushed. `failed`: `err` was set outside every map, so that all loops end.
-- `err_in_map`: `err` was set inside a map, whose loop does not look at it: it goes on to
-- `lua_rawset` with a key or a value missing on the Lua stack; the model does not follow it further.
-- `raised`: `lua_rawset` raises a Lua error, on a key that is nil or NaN. `out_of_fuel` has no
-- counterpart in the program.
pub data Result {ℓ} (A : Type ℓ) : Type ℓ where
  ok : A → Result A
  failed err_in_map raised out_of_fuel : Result A

infixl 5 ◌>>=◌
abbrev pub ◌>>=◌ {ℓ κ} : {A : Type ℓ} {B : Type κ} → Result A → (A → Result B) → Result B
ok a >>= f = f a
failed >>= f = failed
err_in_map >>= f = err_in_map
raised >>= f = raised
out_of_fuel >>= f = out_of_fuel

abbrev pub Reader {ℓ} : Type ℓ → Type ℓ
Reader A = ReadBuffer → Result (A × ReadBuffer)

-- `if (mprbuf_left(b) >= k)`: the `k` bytes at `ofs`, with `ofs += k`; else `err |= 1`.
unfoldable pub claim : ℕ → Reader (List ℕ)
claim k b = elim (split_at k b.rest) [
  | none ↦ failed
  | some (s, rest) ↦ ok (s, record b { rest = rest; ofs = b.ofs + k })
]

-- The bytes of a slice of the block: `n` of them, from an offset on.
abbrev pub view : (ℕ → ℕ) → ℕ → ℕ → List ℕ
view memory zero ofs = []
view memory (suc n) ofs = memory ofs ∷ view memory n (suc ofs)

-- A string of `slen` bytes: a Lua string for a key or with no block, else a slice of the block. A
-- slice that is asked for with length 0 covers `whole` bytes (`lev_pushbuffer_from_mb`).
unfoldable pub read_string : Option Source → ℕ → Reader Value
read_string mb slen b = do
  (s, b') ← claim slen b
  ok (
    elim mb [
      | none ↦ string s
      | some src ↦
          if b.map_keying
          then string s
          else if slen == 0
          then buffer (view src.memory src.whole b.ofs)
          else buffer s
    ],
    b',
  )

-- The number that a two's complement pattern of 2 * `half` values stands for.
abbrev pub signed : ℕ → ℕ → ℤ
signed half w = if ltb w half then pos w else negsuc (half + half - 1 - w)

-- A number in `k` bytes, and what is made of it.
unfoldable pub read_number : (ℕ → Number) → ℕ → Reader Value
read_number f k b = do (s, b') ← claim k b; ok (number (f (from_be 0 s)), b')

-- A `*(long*)s` is a load of 8 bytes, after a check for 4: what `ntohl` makes a number of are the 4 low
-- bytes, which stand first. Where there are fewer behind them, the load goes past the end of the data,
-- and what it finds there is not used.
abbrev long_bytes : List ℕ → List ℕ → List ℕ
long_bytes s rest = take 8 (s ++ rest)

unfoldable pub read_word : (ℕ → Number) → Reader Value
read_word f b = do
  (s, b') ← claim 4 b
  ok (number (f (from_be 0 (take 4 (long_bytes s b'.rest)))), b')

-- A size in `k` bytes, and what reads that many elements.
unfoldable pub read_sized : (ℕ → Reader Value) → ℕ → Reader Value
read_sized f k b = do (s, b') ← claim k b; f (from_be 0 s) b'

-- `int arylen`, as the count of rounds of `for (i = 0; i < arylen; i++)`.
abbrev pub rounds : ℕ → ℕ
rounds n = if ltb n (2 ^ 31) then n else 0

-- The loop of `mprbuf_unpack_array`, over the reader of an element: it ends at the first error.
unfoldable pub unpack_items : Reader Value → ℕ → Reader Items
unpack_items any zero b = ok (no_items, b)
unpack_items any (suc n) b =
    any b >>= λ (v, b'). unpack_items any n b' >>= λ (vs, b''). ok (item v vs, b'')

unfoldable pub unpack_array : Reader Value → ℕ → Reader Value
unpack_array any arylen b =
    unpack_items any (rounds arylen) b >>= λ (vs, b'). ok (table vs no_fields, b')

-- An error in the key or the value of a pair.
abbrev pub in_map {ℓ} : {A : Type ℓ} → Result A → Result A
in_map (ok a) = ok a
in_map failed = err_in_map
in_map err_in_map = err_in_map
in_map raised = raised
in_map out_of_fuel = out_of_fuel

abbrev pub is_nil : Value → Bool
is_nil nil = true
is_nil v = false

abbrev pub is_key : Value → Bool
is_key nil = false
is_key (number (double w)) = not (is_nan w)
is_key v = true

unfoldable pub same_text : List ℕ → List ℕ → Bool
same_text [] [] = true
same_text (b ∷ bs) (d ∷ ds) = let rest = same_text bs ds in b == d && rest
same_text bs ds = false

-- Keys of one value: userdata and tables are new for each key that is read, and differ.
unfoldable pub same_key : Value → Value → Bool
same_key (boolean i) (boolean j) = if i then j else not j
same_key (number (integer (pos m))) (number (integer (pos n))) = m == n
same_key (number (integer (negsuc m))) (number (integer (negsuc n))) = m == n
same_key (number (double v)) (number (double w)) = v == w
same_key (string s) (string t) = same_text s t
same_key k k' = false

-- `lua_rawset` of a pair, in a table that is listed by its pairs: a nil removes the key, and a key that
-- is there gets the new value. Pairs at 1, 2, … stay in the list too.
unfoldable pub lua_rawset : Value → Value → Fields → Fields
lua_rawset k v no_fields = if is_nil v then no_fields else field k v no_fields
lua_rawset k v (field k' v' fs) =
    let rest = lua_rawset k v fs in
    if same_key k k' then (if is_nil v then fs else field k' v fs) else field k' v' rest

-- The loop of `mprbuf_unpack_map`, on the table so far: the errors of `any` are not looked at.
unfoldable pub unpack_fields : Reader Value → ℕ → Fields → Reader Fields
unpack_fields any zero t b = ok (t, b)
unpack_fields any (suc n) t b = in_map (any (record b { map_keying = true })) >>= λ (k, b₁).
    in_map (any (record b₁ { map_keying = false })) >>= λ (v, b₂).
    let rest = unpack_fields any n (lua_rawset k v t) b₂ in if is_key k then rest else raised

unfoldable pub unpack_map : Reader Value → ℕ → Reader Value
unpack_map any maplen b =
    unpack_fields any (rounds maplen) no_fields b >>= λ (fs, b'). ok (table no_items fs, b')

-- The values of more than one byte and the containers, by the byte `t` at their front, from 0xc0 on.
unfoldable pub unpack_tagged : Conversions → Option Source → Reader Value → ℕ → Reader Value
unpack_tagged c mb any t b =
    if t == 0xc0
    then ok (nil, b)
    else if t == 0xc2
    then ok (boolean false, b)
    else if t == 0xc3
    then ok (boolean true, b)
    else if t == 0xca
    then read_number (λ w. c.of_float w) 4 b
    else if t == 0xcb
    then read_number (λ w. c.of_double w) 8 b
    else if t == 0xcc
    then read_number (λ w. integer (pos w)) 1 b
    else if t == 0xcd
    then read_number (λ w. integer (pos w)) 2 b
    else if t == 0xce
    then read_word (λ w. integer (pos w)) b
    else if t == 0xcf
    then read_number (λ w. c.of_long_long (pos w)) 8 b
    else if t == 0xd0
    then read_number (λ w. integer (signed (2 ^ 7) w)) 1 b
    else if t == 0xd1
    then read_number (λ w. integer (signed (2 ^ 15) w)) 2 b
    else if t == 0xd2
    then read_word (λ w. integer (signed (2 ^ 31) w)) b
    else if t == 0xd3
    then read_number (λ w. c.of_long_long (signed (2 ^ 63) w)) 8 b
    else if t == 0xda
    then claim 2 b >>= (λ (s, b'). read_string mb (from_be 0 s) b')
    else if t == 0xdb
    then claim 4 b >>= (λ (s, b'). read_string mb (from_be 0 s) b')
    else if t == 0xdc
    then read_sized (unpack_array any) 2 b
    else if t == 0xdd
    then read_sized (unpack_array any) 4 b
    else if t == 0xde
    then read_sized (unpack_map any) 2 b
    else if t == 0xdf
    then read_sized (unpack_map any) 4 b
    else failed

-- One value, by its first byte.
unfoldable pub unpack_from : Conversions → Option Source → Reader Value → ℕ → Reader Value
unpack_from c mb any t b =
    if ltb t 0x80
    then ok (number (integer (pos t)), b)
    else if ltb t 0x90
    then unpack_map any (bit_and t 0xf) b
    else if ltb t 0xa0
    then unpack_array any (bit_and t 0xf) b
    else if ltb t 0xc0
    then read_string mb (bit_and t 0x1f) b
    else if ltb 0xdf t
    then ok (number (integer (negsuc (255 - t))), b)
    else unpack_tagged c mb any t b

-- Each level of nesting takes a byte, so a call for each level is all the fuel that is needed.
unfoldable pub unpack_anytype : Conversions → Option Source → ℕ → Reader Value
unpack_anytype c mb zero b = out_of_fuel
unpack_anytype c mb (suc f) b = elim b.rest [
  | [] ↦ failed
  | t ∷ rest ↦
      unpack_from c mb (unpack_anytype c mb f) t (record b { rest = rest; ofs = b.ofs + 1 })
]

abbrev pub mprbuf_init : List ℕ → ReadBuffer
mprbuf_init data_read = record { rest = data_read; ofs = 0; map_keying = false }

-- What `unpack` returns: the number of bytes read and the value, or nil twice (`nothing`), or nil
-- alone for an empty buffer.
pub data Unpacked : Type 0 where
  unpacked : ℕ → Value → Unpacked
  nothing nil_only : Unpacked

-- What `msgpack_unpack_api` does behind `mprbuf_mb_init`.
unfoldable pub unpack_bytes : Conversions → Source → List ℕ → Result Unpacked
unpack_bytes c src [] = ok nil_only
unpack_bytes c src (t ∷ ts) =
    elim (unpack_anytype c (some src) (suc (suc (length ts))) (mprbuf_init (t ∷ ts))) [
      | ok (v, b) ↦ ok (unpacked b.ofs v)
      | failed ↦ ok nothing
      | err_in_map ↦ err_in_map
      | raised ↦ raised
      | out_of_fuel ↦ out_of_fuel
    ]

-- The assertion of `mprbuf_mb_init`.
abbrev in_block : Source → ℕ → Bool
in_block src len = leb src.slice src.size && leb len src.size

-- `none` is the failed assertion.
unfoldable pub msgpack_unpack_api : Conversions → Source → List ℕ → Option (Result Unpacked)
msgpack_unpack_api c src [] = some (ok nil_only)
msgpack_unpack_api c src (t ∷ ts) =
    if in_block src (length (t ∷ ts)) then some (unpack_bytes c src (t ∷ ts)) else none

-- Data that lie in the block.
abbrev pub InBlock : Source → ℕ → Type 0
InBlock src len = (src.slice ≤ src.size) × (len ≤ src.size)

pub api_in :
    (c : Conversions) (src : Source) (bs : List ℕ)
    → InBlock src (length bs)
    → msgpack_unpack_api c src bs ≡ some (unpack_bytes c src bs)
unfolding msgpack_unpack_api unpack_bytes
api_in c src [] h = refl
api_in c src (t ∷ ts) (h, k) = ground (arith, h, k)

take-append : (s r : List ℕ) (n : ℕ) → take (length s) (take (n + length s) (s ++ r)) ≡ s
take-append [] r n = refl
take-append (x ∷ s) r n =
    let e : n + suc (length s) ≡ suc (n + length s) = omega arith in
    rw e (ap (λ l. x ∷ l) (take-append s r n))

-- The 8 bytes that are loaded hold the 4 bytes that are checked.
pub read_word_lem : (f : ℕ → Number) (b : ReadBuffer) → read_word f b ≡ read_number f 4 b
unfolding read_word read_number claim
read_word_lem f b = go (split_at 4 b.rest) refl
  where
    go : (o : Option (List ℕ × List ℕ)) → split_at 4 b.rest ≡ o → read_word f b ≡ read_number f 4 b
    go none e = rw (e, read_word, read_number, claim) refl
    go (some (s, r)) e =
        let l : length s ≡ 4 = omega (arith, split_at-length 4 b.rest s r e) in
        let same : take 4 (take 8 (s ++ r)) ≡ s = rw l at (take-append s r 4) in
        rw (e, same, read_word, read_number, claim) refl
