-- ===== src/Buffer/Access.antt =====
-- The integer accessors of a buffer: their offset test, and a write with the read behind it.
use lev.Buffer.Bytes.{buffer_getoffset, bswap16, bswap32, le16, le32, out_of_bounds, byte_of_le}
use lev.Base.{
  ℕ, ◌+◌, ◌-◌, ◌*◌, ◌/◌, ◌%◌, ◌^◌, ◌<◌, ◌≤◌, ◌≡◌, ◌↔◌, inl, inr, sym, ap, ◌∙◌, true, false, ◌&&◌,
  some, ltb, leb, ◌==◌, arith, Bool-cases,
}
use lev.Buffer.Memory.{
  MemSlice, World, Result, ok, ◌>>=◌, pure, load, store, write, read, overwrite,
}
use lev.Slab.{MemBlock, set_block}

-- The world with `n` bytes of block `p` overwritten.
abbrev pub after : ℕ → MemBlock → ℕ → ℕ → (ℕ → ℕ) → World → World
after p b off n src w = record w {
  heap = set_block p (some (record b { bytes = overwrite off n src b.bytes })) w.heap;
}

pub ==_refl : (p : ℕ) → (p == p) ≡ true
==_refl p = ground arith

pub overwrite_inside :
    (off n : ℕ) (src bytes : ℕ → ℕ) (i : ℕ) → i < n → overwrite off n src bytes (off + i) ≡ src i
overwrite_inside off n src bytes i h =
    let e : off + i - off ≡ i = omega arith in
    let inside : (leb off (off + i) && ltb (off + i) (off + n)) ≡ true = ground arith in
    rw (inside, e)

pub load_ok : (p : ℕ) (b : MemBlock) (w : World) → w.heap.block p ≡ some b → load p w ≡ ok (b, w)
unfolding load
load_ok p b w e = rw (e, load)

pub write_ok :
    (p : ℕ) (b : MemBlock) (off n : ℕ) (src : ℕ → ℕ) (w : World)
    → w.heap.block p ≡ some b
    → 0 < n
    → off + n ≤ b.room
    → write p off n src w ≡ ok (tt, after p b off n src w)
unfolding write store
write_ok p b off n src w e pos_n room =
    let nonzero : (n == 0) ≡ false = ground arith in
    let fits : leb (off + n) b.room ≡ true = ground arith in
    rw (load_ok p b w e, ◌>>=◌, nonzero, fits)

pub read_ok :
    (p : ℕ) (b : MemBlock) (off n : ℕ) (w : World)
    → w.heap.block p ≡ some b
    → off + n ≤ b.room
    → read p off n w ≡ ok ((λ i. b.bytes (off + i)), w)
unfolding read
read_ok p b off n w e room =
    let fits : leb (off + n) b.room ≡ true = ground arith in
    elim (Bool-cases (n == 0)) [
      | inl z ↦ rw (load_ok p b w e, ◌>>=◌, z)
      | inr z ↦ rw (load_ok p b w e, ◌>>=◌, z, fits)
    ]

-- `_BUFFER_GETOFFSET` with a positive `extbound`, as the accessors of two bytes or more give it,
-- accepts an index exactly when that many bytes from it on lie in the slice, for a slice that is
-- not shorter.
pub getoffset_bounds :
    (ms : MemSlice) (arg index extbound : ℕ) (w : World)
    → 0 < extbound
    → extbound ≤ ms.until
    → ms.until < 2 ^ 64
    → (buffer_getoffset ms arg index extbound w ≡ ok (ms.slice + (index - 1), w))
      ↔ ((1 ≤ index) × (index - 1 + extbound ≤ ms.until))
unfolding buffer_getoffset
getoffset_bounds ms arg index extbound w h k l = ground arith

-- A slice shorter than the integer is accepted at every index from 1 to 2^64 - 2^32, in the slice or
-- not: the subtraction of `buffer_len - extbound` wraps.
pub getoffset_short_slice :
    (ms : MemSlice) (arg index extbound : ℕ) (w : World)
    → ms.until < extbound
    → extbound ≤ 4
    → 1 ≤ index
    → index ≤ 2 ^ 64 - 2 ^ 32
    → buffer_getoffset ms arg index extbound w ≡ ok (ms.slice + (index - 1), w)
unfolding buffer_getoffset
getoffset_short_slice ms arg index extbound w h k l m = ground arith

-- The one-byte accessors accept the index one behind the slice.
pub getoffset_one_behind :
    (ms : MemSlice) (arg : ℕ) (w : World)
    → ms.until < 2 ^ 64
    → buffer_getoffset ms arg (ms.until + 1) 0 w ≡ ok (ms.slice + ms.until, w)
unfolding buffer_getoffset
getoffset_one_behind ms arg w h = ground arith

-- A slice of a block that is in use, with room for `k` bytes from `index` on.
pub record Holds (ms : MemSlice) (b : MemBlock) (index k : ℕ) (w : World) : Type 0 where
  pub live : w.heap.block ms.mb ≡ some b
  pub inside : ms.slice + ms.until ≤ b.room
  pub from_first : 1 ≤ index
  pub to_last : index - 1 + k ≤ ms.until
  pub size_t : ms.until < 2 ^ 64

module _ {A : Type 0} (ms : MemSlice) (b : MemBlock) (index k : ℕ) (w : World)
    (h : Holds ms b index k w) (pos_k : 0 < k) (src : ℕ → ℕ) (g : (ℕ → ℕ) → A) where
  abbrev w' : World
  w' = after ms.mb b (ms.slice + (index - 1)) k src w

  wrote :
      (e : ℕ)
      → e ≤ k
      → (buffer_getoffset ms 3 index e >>= λ at. write ms.mb at k src) w ≡ ok (tt, w')
  unfolding buffer_getoffset
  wrote e l = ground (arith, write_ok ms.mb b (ms.slice + (index - 1)) k src w)

  reads :
      (e : ℕ)
      → e ≤ k
      → (buffer_getoffset ms 2 index e >>= λ at. read ms.mb at k >>= λ s. pure (g s)) w'
        ≡ ok (
          g (λ i. overwrite (ms.slice + (index - 1)) k src b.bytes (ms.slice + (index - 1) + i)),
          w',
        )
  unfolding buffer_getoffset
  reads e l =
      let inside : out_of_bounds ms.until index e ≡ false = ground arith in
      let room : ms.slice + (index - 1) + k ≤ b.room = omega arith in
      rw (inside) (
        rw (
          read_ok ms.mb (record b { bytes = overwrite (ms.slice + (index - 1)) k src b.bytes })
              (ms.slice + (index - 1)) k w' (rw (==_refl ms.mb)) room,
          ◌>>=◌,
        ))

  read_as : {x : A} (r : A) → x ≡ r → ◌≡◌ {A = Result (A × World)} (ok (x, w')) (ok (r, w'))
  read_as r e = rw e

  -- An accessor that writes `k` bytes, and then one that reads them.
  pub wrote-reads :
      (e : ℕ) (r : A)
      → e ≤ k
      → g (λ i. overwrite (ms.slice + (index - 1)) k src b.bytes (ms.slice + (index - 1) + i)) ≡ r
      → ((buffer_getoffset ms 3 index e >>= λ at. write ms.mb at k src) >>= λ _.
            buffer_getoffset ms 2 index e >>= λ at. read ms.mb at k >>= λ s. pure (g s))
          w
        ≡ ok (r, w')
  wrote-reads e r l same = rw (wrote e l, ◌>>=◌) (reads e l ∙ read_as r same)

-- The integer that four or two bytes hold, and the two byte orders.
pub le16_bytes : (v : ℕ) → v < 2 ^ 16 → le16 (byte_of_le v) ≡ v
le16_bytes v h = omega arith

pub le32_bytes : (v : ℕ) → v < 2 ^ 32 → le32 (byte_of_le v) ≡ v
le32_bytes v h = omega arith

pub bswap16_twice : (v : ℕ) → v < 2 ^ 16 → (bswap16 v < 2 ^ 16) × (bswap16 (bswap16 v) ≡ v)
unfolding bswap16
bswap16_twice v h = (omega arith, omega arith)

pub bswap32_digits :
    (a b c d : ℕ)
    → a < 256
    → b < 256
    → c < 256
    → d < 256
    → bswap32 (a + b * 2 ^ 8 + c * 2 ^ 16 + d * 2 ^ 24) ≡ d + c * 2 ^ 8 + b * 2 ^ 16 + a * 2 ^ 24
unfolding bswap32
bswap32_digits a b c d ha hb hc hd = omega arith

pub bswap32_twice : (v : ℕ) → v < 2 ^ 32 → (bswap32 v < 2 ^ 32) × (bswap32 (bswap32 v) ≡ v)
bswap32_twice v h =
    let a = v % 256 in
    let b = v / 2 ^ 8 % 256 in
    let c = v / 2 ^ 16 % 256 in
    let d = v / 2 ^ 24 in
    let digits : v ≡ a + b * 2 ^ 8 + c * 2 ^ 16 + d * 2 ^ 24 = omega arith in
    let once =
      ap bswap32 digits
      ∙ bswap32_digits a b c d (omega arith) (omega arith) (omega arith) (omega arith) in
    (
      omega (arith, once),
      ap bswap32 once
          ∙ bswap32_digits d c b a (omega arith) (omega arith) (omega arith) (omega arith)
          ∙ sym digits,
    )
