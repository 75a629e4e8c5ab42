-- ===== src/Buffer/Methods.antt =====
-- The methods of the `lev.buffer` metatable, src/lev_new_buffer.c.
use lev.Base.{
  ℕ, zero, suc, ◌+◌, ◌-◌, ◌/◌, ◌%◌, Bool, true, false, ◌||◌, Option, none, some, List, [], ◌∷◌,
  ◌++◌, ltb, ◌==◌, if◌then◌else◌, length, get_or, take, drop, is_empty,
}
use lev.Buffer.Memory.{MemSlice, M, ◌>>=◌, pure, argerror, on_heap, write, read, tabulate}
use lev.Slab.{lev_slab_inc_ref, lev_slab_dec_ref_count}
use lev.Buffer.Slice.{lev_buffer_new, lev_memslice_append_mem}
use lev.Buffer.Bytes.{out_of_bounds}

-- An argument of a Lua call, as far as these methods tell them apart. A string's memory ends in a
-- terminating 0.
pub data Arg : Type 0 where
  buffer : MemSlice → Arg
  string : List ℕ → Arg
  number : ℕ → Arg
  other : Arg

abbrev pub chars : List ℕ → ℕ → ℕ
chars s i = get_or s i 0

-- `Buffer:new(n)` and `Buffer:new(s)`.
unfoldable pub buffer_new : Arg → M MemSlice
buffer_new (number n) = lev_buffer_new n none 0
buffer_new (string s) = lev_buffer_new (length s) (some (chars s)) 0
buffer_new (buffer ms) = argerror 1
buffer_new other = argerror 1

-- An offset argument that is missing or 0 is 1, and 1 is the first byte.
abbrev pub from_one : ℕ → ℕ
from_one offset = if offset == 0 then 1 else offset

-- A length argument that is missing or 0 is all that is left.
abbrev pub length_or : ℕ → ℕ → ℕ
length_or length left = if length == 0 then left else length

unfoldable pub buffer_tostring : MemSlice → ℕ → ℕ → M (List ℕ)
buffer_tostring ms i j =
    if ltb (from_one i) 1 || ltb ms.until (from_one i)
    then argerror 2
    else (let offset = from_one i - 1 in
        let n = length_or j (ms.until - offset) in
        if ltb (ms.until - offset) n
        then argerror 3
        else (read ms.mb (ms.slice + offset) n >>= λ s. pure (tabulate n s)))

unfoldable pub buffer_slice : MemSlice → ℕ → ℕ → M MemSlice
buffer_slice ms i j =
    if ltb (from_one i) 1 || ltb ms.until (from_one i)
    then argerror 2
    else (let offset = from_one i - 1 in
        let n = length_or j (ms.until - offset) in
        if ltb (ms.until - offset) n
        then argerror 3
        else (on_heap (lev_slab_inc_ref ms.mb) >>= λ _.
            pure (record { mb = ms.mb; slice = ms.slice + offset; until = n })))

-- The byte to fill with: `(uint8_t)` of a number, or the first of a string.
abbrev pub fill_value : Arg → Option ℕ
fill_value (number n) = some (n % 256)
fill_value (string s) = some (chars s 0)
fill_value (buffer ms) = none
fill_value other = none

unfoldable pub buffer_fill : MemSlice → Arg → ℕ → ℕ → M (Unit {0})
buffer_fill ms value i j =
    if ltb (from_one i) 1 || ltb ms.until (from_one i)
    then argerror 3
    else (let n = length_or j ms.until in
        if ltb n (from_one i) || ltb ms.until n then argerror 4 else elim (fill_value value) [
          | none ↦ argerror 2
          | some v ↦
              let offset = from_one i - 1 in write ms.mb (ms.slice + offset) (n - offset) (λ k. v)
        ])

-- Whether `s` stands at the front of `l` (`memcmp` over the length of `s`).
unfoldable pub starts : List ℕ → List ℕ → Bool
starts [] l = true
starts (c ∷ cs) [] = false
starts (c ∷ cs) (d ∷ ds) = if c == d then starts cs ds else false

-- The loop of `my_memmem` from `cl` to `last`, by the places that are left: the index of the first
-- place where `s` stands.
unfoldable pub memmem_loop : ℕ → List ℕ → List ℕ → ℕ → Option ℕ
memmem_loop zero l s at = none
memmem_loop (suc places) l s at =
    let rest = memmem_loop places (drop 1 l) s (at + 1) in if starts s l then some at else rest

unfoldable pub memmem : List ℕ → List ℕ → Option ℕ
memmem l s =
    if length l == 0 || length s == 0
    then none
    else if ltb (length l) (length s)
    then none
    else memmem_loop (length l - length s + 1) l s 0

-- The bytes of a slice.
unfoldable pub contents : MemSlice → M (List ℕ)
contents ms = read ms.mb ms.slice ms.until >>= λ s. pure (tabulate ms.until s)

-- `none` is nil; an index counts from 1.
unfoldable pub buffer_find : MemSlice → Arg → M (Option ℕ)
buffer_find ms (string delimiter) =
    if is_empty delimiter
    then pure none
    else (contents ms >>= λ l.
        pure (elim (memmem l delimiter) [ none ↦ none | some at ↦ some (at + 1) ]))
buffer_find ms (number n) = argerror 2
buffer_find ms (buffer m) = argerror 2
buffer_find ms other = argerror 2

unfoldable pub buffer_upuntil : MemSlice → List ℕ → ℕ → M (List ℕ)
buffer_upuntil ms delimiter i =
    if is_empty delimiter
    then pure []
    else if ltb (from_one i) 1 || ltb ms.until (from_one i)
    then argerror 3
    else (contents ms >>= λ l.
        let tail = drop (from_one i - 1) l in
        pure (elim (memmem tail delimiter) [ none ↦ tail | some at ↦ take at tail ]))

unfoldable pub hex_digit : ℕ → ℕ
hex_digit n = if ltb n 10 then b'0' + n else b'A' + (n - 10)

unfoldable pub hex_bytes : List ℕ → List ℕ
hex_bytes [] = []
hex_bytes (b ∷ bs) = hex_digit (b / 16) ∷ hex_digit (b % 16) ∷ b' ' ∷ hex_bytes bs

-- "<Buffer ", the bytes in hexadecimal with a space behind each, ">".
unfoldable pub buffer_inspect : MemSlice → M (List ℕ)
buffer_inspect ms = contents ms >>= λ l.
    pure
      ((b'<' ∷ b'B' ∷ b'u' ∷ b'f' ∷ b'f' ∷ b'e' ∷ b'r' ∷ b' ' ∷ []) ++ (hex_bytes l ++ b'>' ∷ []))

unfoldable pub buffer__gc : MemSlice → M (Unit {0})
buffer__gc ms = on_heap (lev_slab_dec_ref_count (some ms.mb) 1) >>= λ _. pure tt

unfoldable pub same_bytes : List ℕ → List ℕ → Bool
same_bytes [] [] = true
same_bytes (a ∷ r) (b ∷ bs) = if a == b then same_bytes r bs else false
same_bytes _ _ = false

unfoldable pub buffer__eq : MemSlice → MemSlice → M Bool
buffer__eq ms1 ms2 =
    if ms1.until == ms2.until
    then (contents ms1 >>= λ a. contents ms2 >>= λ b. pure (same_bytes a b))
    else pure false

unfoldable pub buffer__len : MemSlice → M ℕ
buffer__len ms = pure ms.until

-- The `switch` of `buffer__newindex` on the type of the value.
unfoldable pub assign_at : MemSlice → ℕ → Arg → M MemSlice
assign_at ms index (buffer v) =
    read v.mb v.slice v.until >>= λ s. lev_memslice_append_mem ms (index - 1) s v.until
assign_at ms index (string s) = lev_memslice_append_mem ms (index - 1) (chars s) (length s)
assign_at ms index (number n) =
    if ltb 255 n
    then argerror 3
    else (write ms.mb (ms.slice + (index - 1)) 1 (λ i. n) >>= λ _. pure ms)
assign_at ms index other = argerror 3

-- `__newindex(buffer, key, value)` for a number as key.
unfoldable pub buffer__newindex : MemSlice → ℕ → Arg → M MemSlice
buffer__newindex ms index value =
    if out_of_bounds ms.until index 0 then argerror 2 else assign_at ms index value
