-- ===== src/Buffer/Concat.antt =====
-- `__concat` and the hexadecimal writers of src/lev_new_buffer.c.
use lev.Base.{
  ℕ, zero, suc, ◌+◌, ◌-◌, ◌/◌, ◌%◌, Bool, ◌&&◌, ◌||◌, Option, none, some, List, [], ◌∷◌, ◌++◌, ltb,
  leb, ◌==◌, if◌then◌else◌, length,
}
use lev.Buffer.Memory.{
  ◌>>◌, MemSlice, M, ◌>>=◌, pure, argerror, load, store, size_sub, write, read, fault,
}
use lev.Slab.{MemBlock}
use lev.Buffer.Slice.{lev_pushbuffer_from_mb, lev_buffer_new}
use lev.Buffer.Methods.{Arg, buffer, string, number, other, chars}

-- A pointer to bytes: NULL, a Lua string, or an address in a block.
pub data Pointer : Type 0 where
  null : Pointer
  text : List ℕ → Pointer
  into : ℕ → ℕ → Pointer

-- The memory from the pointer on, of which `n` bytes are read; none for NULL.
unfoldable pub fetch : Pointer → ℕ → M (Option (ℕ → ℕ))
fetch null n = pure none
fetch (text s) n = pure (some (chars s))
fetch (into p off) n = read p off n >>= λ s. pure (some s)

-- What the two `switch` statements find: the pointer, the count of bytes and the slice of a buffer.
-- Both take a string from argument 2.
pub record Operand : Type 0 where
  pub source : Pointer
  pub len : ℕ
  pub ms : Option MemSlice

-- `lua_tolstring(L, 2, &len)`: NULL and 0 if argument 2 is a buffer.
abbrev pub second_string : Arg → Operand
second_string (string s) = record { source = text s; len = length s; ms = none }
second_string (buffer m) = record { source = null; len = 0; ms = none }
second_string (number n) = record { source = null; len = 0; ms = none }
second_string other = record { source = null; len = 0; ms = none }

-- `operand n arg second`: the operand in argument n of a call whose argument 2 is `second`.
unfoldable pub operand : ℕ → Arg → Arg → M Operand
operand n (buffer m) second =
    pure (record { source = into m.mb m.slice; len = m.until; ms = some m })
operand n (string s) second = pure (second_string second)
operand n (number k) second = argerror n
operand n other second = argerror n

-- Two slices of one block, one right behind the other.
unfoldable pub back_to_back : MemSlice → MemSlice → Bool
back_to_back a b =
    a.mb == b.mb
    && (ltb b.slice a.slice && b.slice + b.until == a.slice
        || ltb a.slice b.slice && a.slice + a.until == b.slice)

-- One slice over both.
unfoldable pub union : MemSlice → MemSlice → M MemSlice
union a b =
    lev_pushbuffer_from_mb a.mb (a.until + b.until)
      (some (if ltb b.slice a.slice then b.slice else a.slice))

-- `memcpy(dst, second_buffer, second_buffer_len)`; NULL with a length is a fault.
unfoldable pub copy_operand : ℕ → ℕ → Operand → M (Unit {0})
copy_operand mb off second = do
  s ← fetch second.source second.len
  elim s [
    | some bytes ↦ write mb off second.len bytes
    | none ↦ if second.len == 0 then pure tt else (λ w. fault)
  ]

-- A new buffer for both. A length of 0 stands for the whole size in `lev_buffer_new`.
unfoldable pub concat_new : Operand → Operand → M MemSlice
concat_new first second = do
  let new_size = first.len + second.len
  temp ← fetch first.source (if first.len == 0 then new_size else first.len)
  ms ← lev_buffer_new new_size temp first.len
  copy_operand ms.mb (ms.slice + first.len) second
  pure ms

-- The part of the block behind the first slice is taken, if the slice ends where the used part
-- does. The slice that is returned is the one that is pushed.
unfoldable pub concat_behind : MemSlice → MemBlock → Operand → M MemSlice
concat_behind a b second = do
  pushed ← lev_pushbuffer_from_mb a.mb (a.until + second.len) (some a.slice)
  b' ← load a.mb
  store a.mb (record b' { nbytes = b'.nbytes + second.len })
  copy_operand a.mb (a.slice + a.until) second
  pure pushed

unfoldable pub concat_apart : Operand → Operand → M MemSlice
concat_apart first second = elim first.ms [
  | none ↦ concat_new first second
  | some a ↦ load a.mb >>= λ b.
      if a.slice + a.until == b.nbytes && leb second.len (size_sub b.size b.nbytes)
      then concat_behind a b second
      else concat_new first second
]

-- Two strings, which reach the method in a direct call only, have no slices to compare.
unfoldable pub concat_operands : Arg → Arg → Operand → Operand → M MemSlice
concat_operands (buffer a) (buffer b) first second =
    if back_to_back a b then union a b else concat_apart first second
concat_operands (string s) (string t) first second = λ w. fault
concat_operands a b first second = concat_apart first second

unfoldable pub buffer__concat : Arg → Arg → M MemSlice
buffer__concat a b = do
  first ← operand 1 a b
  second ← operand 2 b b
  concat_operands a b first second

-- The digits of `%zx` and `%zX`, for a `size_t` below 16^fuel; `ten` is the digit for 10.
unfoldable pub hex_digits : ℕ → ℕ → ℕ → List ℕ
hex_digits ten zero n = []
hex_digits ten (suc fuel) n =
    let digit : ℕ = if ltb (n % 16) 10 then b'0' + n % 16 else ten + (n % 16 - 10) in
    let front = hex_digits ten fuel (n / 16) in (if n / 16 == 0 then [] else front) ++ digit ∷ []

-- `luaL_checkint`, as a `size_t`, is `value`.
unfoldable pub write_hex : ℕ → MemSlice → ℕ → ℕ → M ℕ
write_hex ten ms value index =
    let tmp = hex_digits ten 16 value in
    let out_int = length tmp in
    if ltb index 1 || ltb (size_sub ms.until out_int) (index - 1)
    then argerror 3
    else (write ms.mb (ms.slice + (index - 1)) out_int (chars tmp) >>= λ _. pure out_int)

unfoldable pub buffer_write_hex_lower : MemSlice → ℕ → ℕ → M ℕ
buffer_write_hex_lower = write_hex b'a'

unfoldable pub buffer_write_hex_upper : MemSlice → ℕ → ℕ → M ℕ
buffer_write_hex_upper = write_hex b'A'
