-- ===== src/Json/Strbuf.antt =====
-- The buffers of the JSON codec, on the slab allocator: the support layer for MemSlices in
-- src/lev_new_json.c.
pub mod Appends
pub mod Room
use lev.Base.{
  ℕ, List, Option, none, some, [], ◌∷◌, suc, zero, ◌+◌, Bool, false, true, if◌then◌else◌, ltb, ◌<◌,
  ◌%◌, ◌&&◌, ◌*◌, leb, ◌^◌, ◌≡◌, arith, ◌-◌, refl,
}
use lev.Base.Int.{ℤ, pos, negsuc}
use lev.Slab.{lev_slab_get_block, lev_slab_inc_ref, lev_slab_dec_ref_count}
use lev.Buffer.Memory.{M, MemSlice, ◌>>=◌, ◌>>◌, pure, on_heap}
use lev.Buffer.Slice.{lev_memslice_ensure_null, lev_memslice_append_char_unsafe}

-- `strbuf_t`; `ms` is a value of its own, since no other pointer to it is kept.
pub record Strbuf : Type 0 where
  pub ms : Option MemSlice
  pub length : ℕ
  pub dynamic : Bool

abbrev strbuf_default_size : ℕ
strbuf_default_size = 1023

-- The size of the block: room for a NUL too.
abbrev pub strbuf_size : ℤ → ℕ
strbuf_size (pos zero) = strbuf_default_size
strbuf_size (pos (suc n)) = suc n + 1
strbuf_size (negsuc n) = strbuf_default_size

-- A `size_t` of 64 bits as the `int` of 32 that it is passed for.
abbrev pub as_int : ℕ → ℤ
as_int n = if ltb (n % 2 ^ 32) (2 ^ 31) then pos (n % 2 ^ 32) else negsuc (2 ^ 32 - 1 - n % 2 ^ 32)

-- `strbuf_new(json_len)` of `json_decode`: there is a block of that size, up to 1 MB, and it holds the
-- text with its NUL, which a length above `int` that is cut to a small one does not.
unfoldable pub strbuf_fits : ℕ → Bool
strbuf_fits json_len =
    ltb json_len (strbuf_size (as_int json_len))
    && leb (strbuf_size (as_int json_len)) (1024 * 1024)

pub strbuf_fits_lem : (n : ℕ) → n < 1024 * 1024 → strbuf_fits n ≡ true
unfolding strbuf_fits
strbuf_fits_lem zero l = refl
strbuf_fits_lem (suc n) l =
    let e : suc n % 2 ^ 32 ≡ suc n = omega arith in
    let small : ltb (suc n) (2 ^ 31) ≡ true = ground arith in rw (e, small) (ground arith)

-- `malloc` of the slice does not fail; `len` is an `int`, which is what `as_int` makes of a length. At
-- INT_MAX `len + 1` overflows, and no block is large enough for either.
unfoldable pub memslice_wrap_strbuf_init : ℤ → M Strbuf
memslice_wrap_strbuf_init len = do
  mb ← on_heap (lev_slab_get_block (strbuf_size len))
  _ ← on_heap (lev_slab_inc_ref mb)
  let ms : MemSlice = record { mb = mb; slice = 0; until = strbuf_size len }
  lev_memslice_ensure_null ms 0
  pure (record { ms = some ms; length = 0; dynamic = false })

unfoldable pub memslice_wrap_strbuf_new : ℤ → M Strbuf
memslice_wrap_strbuf_new len = do
  s ← memslice_wrap_strbuf_init len
  pure (record s { dynamic = true })

-- `strbuf_new(json_len)`: the length is passed as an `int`.
unfoldable pub strbuf_new : ℕ → M Strbuf
strbuf_new json_len = memslice_wrap_strbuf_new (as_int json_len)

pub strbuf_new_lem : (n : ℕ) → n < 2 ^ 31 → strbuf_new n ≡ memslice_wrap_strbuf_new (pos n)
unfolding strbuf_new
strbuf_new_lem n l =
    let e : n % 2 ^ 32 ≡ n = omega arith in
    let small : ltb n (2 ^ 31) ≡ true = ground arith in rw (e, small) refl

unfoldable pub memslice_wrap_strbuf_free : Strbuf → M Strbuf
memslice_wrap_strbuf_free s = elim s.ms [
  | none ↦ pure s
  | some ms ↦ do _ ← on_heap (lev_slab_dec_ref_count (some ms.mb) 1); pure (record s { ms = none })
]

-- `strbuf_append_char_unsafe` of each byte that `json_next_string_token` puts into `tmp`.
unfoldable pub append_unsafe : MemSlice → ℕ → List ℕ → M ℕ
append_unsafe ms at [] = pure at
append_unsafe ms at (ch ∷ s) = do
  lev_memslice_append_char_unsafe ms at ch
  append_unsafe ms (suc at) s

-- `tmp` is reset, gets the bytes of a string, and a NUL behind them.
unfoldable pub fill_tmp : MemSlice → List ℕ → M ℕ
fill_tmp ms s = do n ← append_unsafe ms 0 s; lev_memslice_ensure_null ms n; pure n
