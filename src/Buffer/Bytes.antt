-- ===== src/Buffer/Bytes.antt =====
-- The byte and integer accessors of src/lev_new_buffer.c.
use lev.Base.{ℕ, ◌+◌, ◌-◌, ◌*◌, ◌/◌, ◌%◌, ◌^◌, Bool, ◌||◌, ltb, if◌then◌else◌}
use lev.Base.Int.{ℤ, pos, negsuc}
use lev.Buffer.Memory.{◌>>=◌, MemSlice, M, pure, argerror, size_sub, write, read}

-- The test of `_BUFFER_GETOFFSET`: an index from 1 on, in `size_t` arithmetic.
abbrev pub out_of_bounds : ℕ → ℕ → ℕ → Bool
out_of_bounds buffer_len index extbound =
    ltb index 1 || ltb (size_sub buffer_len extbound) (index - 1)

-- `_BUFFER_GETOFFSET(L, _idx, extbound)`: the offset in the block of the byte at `index`.
unfoldable pub buffer_getoffset : MemSlice → ℕ → ℕ → ℕ → M ℕ
buffer_getoffset ms arg index extbound =
    if out_of_bounds ms.until index extbound then argerror arg else pure (ms.slice + (index - 1))

-- The bytes of a little-endian integer, and the integer.
abbrev pub byte_of_le : ℕ → ℕ → ℕ
byte_of_le v i = v / 256 ^ i % 256

abbrev pub le16 : (ℕ → ℕ) → ℕ
le16 s = s 0 + s 1 * 2 ^ 8

abbrev pub le32 : (ℕ → ℕ) → ℕ
le32 s = s 0 + s 1 * 2 ^ 8 + s 2 * 2 ^ 16 + s 3 * 2 ^ 24

-- `__builtin_bswap16` and `__builtin_bswap32`, as the source writes them.
unfoldable pub bswap16 : ℕ → ℕ
bswap16 a = (a * 2 ^ 8 + a / 2 ^ 8) % 2 ^ 16

unfoldable pub bswap32 : ℕ → ℕ
bswap32 x =
    x * 2 ^ 24 % 2 ^ 32 + x / 2 ^ 8 % 2 ^ 8 * 2 ^ 16 + x / 2 ^ 16 % 2 ^ 8 * 2 ^ 8 + x / 2 ^ 24

-- A two's complement number of 2 * `half` values, and its pattern.
abbrev pub signed : ℕ → ℕ → ℤ
signed half w = if ltb w half then pos w else negsuc (half + half - 1 - w)

abbrev pub pattern_of : ℕ → ℤ → ℕ
pattern_of half (pos n) = n
pattern_of half (negsuc n) = half + half - 1 - n

-- `__index(buffer, key)` with a number for the key, which is `readUInt8` too.
unfoldable pub buffer__index : MemSlice → ℕ → M ℕ
buffer__index ms index = do at ← buffer_getoffset ms 2 index 0; s ← read ms.mb at 1; pure (s 0)

unfoldable pub buffer_read_int8 : MemSlice → ℕ → M ℤ
buffer_read_int8 ms index = do
  at ← buffer_getoffset ms 2 index 0
  s ← read ms.mb at 1
  pure (signed (2 ^ 7) (s 0))

unfoldable pub buffer_read_uint16_be : MemSlice → ℕ → M ℕ
buffer_read_uint16_be ms index = do
  at ← buffer_getoffset ms 2 index 2
  s ← read ms.mb at 2
  pure (bswap16 (le16 s))

unfoldable pub buffer_read_uint16_le : MemSlice → ℕ → M ℕ
buffer_read_uint16_le ms index = do
  at ← buffer_getoffset ms 2 index 2
  s ← read ms.mb at 2
  pure (le16 s)

unfoldable pub buffer_read_uint32_be : MemSlice → ℕ → M ℕ
buffer_read_uint32_be ms index = do
  at ← buffer_getoffset ms 2 index 4
  s ← read ms.mb at 4
  pure (bswap32 (le32 s))

unfoldable pub buffer_read_uint32_le : MemSlice → ℕ → M ℕ
buffer_read_uint32_le ms index = do
  at ← buffer_getoffset ms 2 index 4
  s ← read ms.mb at 4
  pure (le32 s)

unfoldable pub buffer_read_int32_be : MemSlice → ℕ → M ℤ
buffer_read_int32_be ms index = do
  at ← buffer_getoffset ms 2 index 4
  s ← read ms.mb at 4
  pure (signed (2 ^ 31) (bswap32 (le32 s)))

unfoldable pub buffer_read_int32_le : MemSlice → ℕ → M ℤ
buffer_read_int32_le ms index = do
  at ← buffer_getoffset ms 2 index 4
  s ← read ms.mb at 4
  pure (signed (2 ^ 31) (le32 s))

-- The writers take a number that the type holds: C leaves the conversion of another undefined.
unfoldable pub buffer_write_uint8 : MemSlice → ℕ → ℕ → M (Unit {0})
buffer_write_uint8 ms value index = do
  at ← buffer_getoffset ms 3 index 0
  write ms.mb at 1 (byte_of_le value)

unfoldable pub buffer_write_int8 : MemSlice → ℤ → ℕ → M (Unit {0})
buffer_write_int8 ms value index = do
  at ← buffer_getoffset ms 3 index 0
  write ms.mb at 1 (byte_of_le (pattern_of (2 ^ 7) value))

unfoldable pub buffer_write_uint16_be : MemSlice → ℕ → ℕ → M (Unit {0})
buffer_write_uint16_be ms value index = do
  at ← buffer_getoffset ms 3 index 2
  write ms.mb at 2 (byte_of_le (bswap16 value))

unfoldable pub buffer_write_uint16_le : MemSlice → ℕ → ℕ → M (Unit {0})
buffer_write_uint16_le ms value index = do
  at ← buffer_getoffset ms 3 index 2
  write ms.mb at 2 (byte_of_le value)

unfoldable pub buffer_write_uint32_be : MemSlice → ℕ → ℕ → M (Unit {0})
buffer_write_uint32_be ms value index = do
  at ← buffer_getoffset ms 3 index 4
  write ms.mb at 4 (byte_of_le (bswap32 value))

unfoldable pub buffer_write_uint32_le : MemSlice → ℕ → ℕ → M (Unit {0})
buffer_write_uint32_le ms value index = do
  at ← buffer_getoffset ms 3 index 4
  write ms.mb at 4 (byte_of_le value)

-- `__bswap32` takes an unsigned argument, so a negative value is out of its range.
unfoldable pub buffer_write_int32_be : MemSlice → ℤ → ℕ → M (Unit {0})
buffer_write_int32_be ms value index = do
  at ← buffer_getoffset ms 3 index 4
  write ms.mb at 4 (byte_of_le (bswap32 (pattern_of (2 ^ 31) value)))

unfoldable pub buffer_write_int32_le : MemSlice → ℤ → ℕ → M (Unit {0})
buffer_write_int32_le ms value index = do
  at ← buffer_getoffset ms 3 index 4
  write ms.mb at 4 (byte_of_le (pattern_of (2 ^ 31) value))
