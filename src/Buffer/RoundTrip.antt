-- ===== src/Buffer/RoundTrip.antt =====
-- The integer writers of a buffer together with its readers.
use lev.Buffer.Access.{
  Holds, after, overwrite_inside, le16_bytes, le32_bytes, wrote-reads, bswap16_twice, bswap32_twice,
  read_ok, bswap32_digits,
}
use lev.Buffer.Bytes.{
  buffer_write_uint16_be, le16, le32, pattern_of, buffer_read_uint16_be, signed, byte_of_le,
  bswap16, buffer_write_int32_be, buffer_write_int32_le, buffer_write_uint32_be,
  buffer_write_uint32_le, buffer_read_int32_be, buffer_read_int32_le, buffer_read_uint32_be,
  buffer_read_uint32_le, bswap32, buffer_getoffset, out_of_bounds,
}
use lev.Base.{ℕ, ◌+◌, ◌-◌, ◌*◌, ◌^◌, ◌<◌, ◌≡◌, ap, ◌∙◌, arith, false}
use lev.Buffer.Memory.{MemSlice, World, ok, ◌>>=◌, overwrite}
use lev.Slab.{MemBlock}
use lev.Base.Int.{ℤ, pos, negsuc}

-- Little-endian and big-endian values of the bytes that were just written.
le16_written :
    (off v : ℕ) (bytes : ℕ → ℕ)
    → v < 2 ^ 16
    → le16 (λ i. overwrite off 2 (byte_of_le v) bytes (off + i)) ≡ v
le16_written off v bytes h =
    rw
      (
        overwrite_inside off 2 (byte_of_le v) bytes 0 (omega arith),
        overwrite_inside off 2 (byte_of_le v) bytes 1 (omega arith),
      )
      (le16_bytes v h)

le32_written :
    (off v : ℕ) (bytes : ℕ → ℕ)
    → v < 2 ^ 32
    → le32 (λ i. overwrite off 4 (byte_of_le v) bytes (off + i)) ≡ v
le32_written off v bytes h =
    rw
      (
        overwrite_inside off 4 (byte_of_le v) bytes 0 (omega arith),
        overwrite_inside off 4 (byte_of_le v) bytes 1 (omega arith),
        overwrite_inside off 4 (byte_of_le v) bytes 2 (omega arith),
        overwrite_inside off 4 (byte_of_le v) bytes 3 (omega arith),
      )
      (le32_bytes v h)

abbrev pub InInt32 : ℤ → Type 0
InInt32 (pos n) = n < 2 ^ 31
InInt32 (negsuc n) = n < 2 ^ 31

signed-pattern :
    (z : ℤ)
    → InInt32 z
    → (pattern_of (2 ^ 31) z < 2 ^ 32) × (signed (2 ^ 31) (pattern_of (2 ^ 31) z) ≡ z)
signed-pattern (pos n) h = ground arith
signed-pattern (negsuc n) h = ground arith

-- The block after an accessor's write at `index`.
abbrev pub stored : MemSlice → MemBlock → ℕ → ℕ → ℕ → World → World
stored ms b index k v w = after ms.mb b (ms.slice + (index - 1)) k (byte_of_le v) w

module _ (ms : MemSlice) (b : MemBlock) (index : ℕ) (w : World) where
  -- `readUInt16BE` returns what `writeUInt16BE` stored at the index, for 16 bits that lie in the slice.
  uint16be-write_read :
      (v : ℕ)
      → Holds ms b index 2 w
      → v < 2 ^ 16
      → (buffer_write_uint16_be ms v index >>= λ _. buffer_read_uint16_be ms index) w
        ≡ ok (v, stored ms b index 2 (bswap16 v) w)
  unfolding buffer_write_uint16_be buffer_read_uint16_be
  uint16be-write_read v h small =
      wrote-reads ms b index 2 w h (omega arith) (byte_of_le (bswap16 v)) (λ s. bswap16 (le16 s)) 2
        v (omega arith)
        (ap bswap16
            (le16_written (ms.slice + (index - 1)) (bswap16 v) b.bytes (bswap16_twice v small).0)
          ∙ (bswap16_twice v small).1)

  -- `readUInt32BE` returns what `writeUInt32BE` stored at the index, for 32 bits that lie in the slice.
  pub uint32be-write_read :
      (v : ℕ)
      → Holds ms b index 4 w
      → v < 2 ^ 32
      → (buffer_write_uint32_be ms v index >>= λ _. buffer_read_uint32_be ms index) w
        ≡ ok (v, stored ms b index 4 (bswap32 v) w)
  unfolding buffer_write_uint32_be buffer_read_uint32_be
  uint32be-write_read v h small =
      wrote-reads ms b index 4 w h (omega arith) (byte_of_le (bswap32 v)) (λ s. bswap32 (le32 s)) 4
        v (omega arith)
        (ap bswap32
            (le32_written (ms.slice + (index - 1)) (bswap32 v) b.bytes (bswap32_twice v small).0)
          ∙ (bswap32_twice v small).1)

  -- `readUInt32LE` returns what `writeUInt32LE` stored at the index, for 32 bits that lie in the slice.
  uint32le-write_read :
      (v : ℕ)
      → Holds ms b index 4 w
      → v < 2 ^ 32
      → (buffer_write_uint32_le ms v index >>= λ _. buffer_read_uint32_le ms index) w
        ≡ ok (v, stored ms b index 4 (v) w)
  unfolding buffer_write_uint32_le buffer_read_uint32_le
  uint32le-write_read v h small =
      wrote-reads ms b index 4 w h (omega arith) (byte_of_le (v)) (λ s. le32 s) 4 v (omega arith)
        (le32_written (ms.slice + (index - 1)) v b.bytes small)

  -- `readInt32BE` returns what `writeInt32BE` stored at the index, for a signed 32-bit number and four
  -- bytes that lie in the slice.
  int32be-write_read :
      (v : ℤ)
      → Holds ms b index 4 w
      → InInt32 v
      → (buffer_write_int32_be ms v index >>= λ _. buffer_read_int32_be ms index) w
        ≡ ok (v, stored ms b index 4 (bswap32 (pattern_of (2 ^ 31) v)) w)
  unfolding buffer_write_int32_be buffer_read_int32_be
  int32be-write_read v h small =
      wrote-reads ms b index 4 w h (omega arith) (byte_of_le (bswap32 (pattern_of (2 ^ 31) v)))
        (λ s. signed (2 ^ 31) (bswap32 (le32 s))) 4 v (omega arith)
        (ap (λ x. signed (2 ^ 31) (bswap32 x))
            (le32_written (ms.slice + (index - 1)) (bswap32 (pattern_of (2 ^ 31) v)) b.bytes
              (bswap32_twice (pattern_of (2 ^ 31) v) (signed-pattern v small).0).0)
          ∙ ap (λ x. signed (2 ^ 31) x)
              (bswap32_twice (pattern_of (2 ^ 31) v) (signed-pattern v small).0).1
          ∙ (signed-pattern v small).1)

  -- `readInt32LE` returns what `writeInt32LE` stored at the index, for a signed 32-bit number and four
  -- bytes that lie in the slice.
  int32le-write_read :
      (v : ℤ)
      → Holds ms b index 4 w
      → InInt32 v
      → (buffer_write_int32_le ms v index >>= λ _. buffer_read_int32_le ms index) w
        ≡ ok (v, stored ms b index 4 (pattern_of (2 ^ 31) v) w)
  unfolding buffer_write_int32_le buffer_read_int32_le
  int32le-write_read v h small =
      wrote-reads ms b index 4 w h (omega arith) (byte_of_le (pattern_of (2 ^ 31) v))
        (λ s. signed (2 ^ 31) (le32 s)) 4 v (omega arith)
        (ap (λ x. signed (2 ^ 31) x)
            (le32_written (ms.slice + (index - 1)) (pattern_of (2 ^ 31) v) b.bytes
              (signed-pattern v small).0)
          ∙ (signed-pattern v small).1)

  -- `readUInt32BE` returns the four bytes of the slice from the index on, the first one highest.
  pub uint32be-bytes :
      Holds ms b index 4 w
      → ((i : ℕ) → b.bytes i < 256)
      → buffer_read_uint32_be ms index w
        ≡ ok (
          b.bytes (ms.slice + (index - 1) + 3)
              + b.bytes (ms.slice + (index - 1) + 2) * 2 ^ 8
              + b.bytes (ms.slice + (index - 1) + 1) * 2 ^ 16
              + b.bytes (ms.slice + (index - 1) + 0) * 2 ^ 24,
          w,
        )
  unfolding buffer_read_uint32_be buffer_getoffset
  uint32be-bytes h bytes =
      let from = ms.slice + (index - 1) in
      let inside : out_of_bounds ms.until index 4 ≡ false = ground arith in
      rw (inside, read_ok ms.mb b from 4 w h.live (omega arith), ◌>>=◌)
        (rw (
          bswap32_digits (b.bytes (from + 0)) (b.bytes (from + 1)) (b.bytes (from + 2))
            (b.bytes (from + 3)) (bytes _) (bytes _) (bytes _) (bytes _)))
