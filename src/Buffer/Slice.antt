-- ===== src/Buffer/Slice.antt =====
-- The functions on slices that other parts of lev call too.
use lev.Base.{ℕ, ◌+◌, Bool, ◌&&◌, Option, none, some, List, [], ◌∷◌, ltb, leb, ◌==◌, if◌then◌else◌}
use lev.Slab.{MemBlock, lev_slab_get_block, lev_slab_inc_ref, lev_slab_dec_ref_count, is_zero}
use lev.Buffer.Memory.{
  ◌>>◌, MemSlice, M, ◌>>=◌, pure, on_heap, load, store, set_static, get_static, size_sub, size_add,
  write, read,
}

-- A null `slice` is the block's first byte; an `until` of 0 is all that is in use, or the size.
unfoldable pub lev_pushbuffer_from_mb : ℕ → ℕ → Option ℕ → M MemSlice
lev_pushbuffer_from_mb mb until slice = do
  _ ← on_heap (lev_slab_inc_ref mb)
  b ← load mb
  pure (record {
    mb = mb;
    slice = elim slice [ none ↦ 0 | some s ↦ s ];
    until = if until == 0 then (if b.nbytes == 0 then b.size else b.nbytes) else until;
  })

-- The shared block, after the first `if` of `lev_buffer_new`.
unfoldable pub static_for : ℕ → M ℕ
static_for size = do
  s ← get_static
  elim s [
    | none ↦ do p ← on_heap (lev_slab_get_block size); set_static (some p); pure p
    | some q ↦ do
      b ← load q
      if ltb (size_sub b.size b.nbytes) size
          then (do
            _ ← on_heap (lev_slab_dec_ref_count (some q) 1)
            p ← on_heap (lev_slab_get_block size)
            set_static (some p)
            pure p)
          else pure q
  ]

-- A block of exactly the size is not shared; another holds a reference of its own.
unfoldable pub keep_or_own : ℕ → ℕ → M (Unit {0})
keep_or_own size mb = do
  b ← load mb
  if b.size == size
      then set_static none
      else if is_zero b.refcount
      then (on_heap (lev_slab_inc_ref mb) >>= λ _. pure tt)
      else pure tt

-- `temp` is the memory from a pointer on, or NULL.
unfoldable pub lev_buffer_new : ℕ → Option (ℕ → ℕ) → ℕ → M MemSlice
lev_buffer_new size temp temp_size = do
  mb ← static_for size
  keep_or_own size mb
  b ← load mb
  ms ← lev_pushbuffer_from_mb mb size (some b.nbytes)
  elim temp [
    | none ↦ write mb b.nbytes size (λ i. 0)
    | some t ↦
        let n = if temp_size == 0 then size else temp_size in
        write mb b.nbytes (if ltb n size then n else size) t
  ]
  b' ← load mb
  store mb (record b' { nbytes = b'.nbytes + size })
  pure ms

unfoldable pub lev_memblock_empty_length : MemBlock → ℕ
lev_memblock_empty_length mb = size_sub (size_sub mb.size mb.nbytes) 1

unfoldable pub lev_memslice_empty_length : MemSlice → ℕ
lev_memslice_empty_length ms = size_sub ms.until 1

-- Whether the slice ends where the block's used part does, and the block has room for `size` bytes.
unfoldable pub fits_in_place : MemSlice → MemBlock → ℕ → Bool
fits_in_place ms b size =
    ms.slice + ms.until == b.nbytes && leb size (size_add ms.until (size_sub b.size b.nbytes))

-- The new block's part of a resize.
unfoldable pub move_to_new : MemSlice → ℕ → M MemSlice
move_to_new ms size = do
  p ← on_heap (lev_slab_get_block size)
  _ ← on_heap (lev_slab_inc_ref p)
  src ← read ms.mb ms.slice ms.until
  write p 0 ms.until src
  _ ← on_heap (lev_slab_dec_ref_count (some ms.mb) 1)
  b ← load p
  store p (record b { nbytes = b.nbytes + size })
  pure (record { mb = p; slice = 0; until = size })

unfoldable pub grow_in_place : MemSlice → MemBlock → ℕ → M MemSlice
grow_in_place ms b size = do
  store ms.mb (record b { nbytes = b.nbytes + size })
  pure (record ms { until = size })

-- The slice is changed in place: its new value is returned.
unfoldable pub lev_memslice_resize : MemSlice → ℕ → M MemSlice
lev_memslice_resize ms size = if leb size (lev_memslice_empty_length ms) then pure ms else (do
  b ← load ms.mb
  if fits_in_place ms b (size_add size 1)
      then grow_in_place ms b (size_add size 1)
      else move_to_new ms (size_add size 1))

-- `len` is an `int` that is not negative.
unfoldable pub lev_memslice_ensure_empty_length : MemSlice → ℕ → M MemSlice
lev_memslice_ensure_empty_length ms len =
    if ltb (lev_memslice_empty_length ms) len then lev_memslice_resize ms len else pure ms

unfoldable pub lev_memslice_append_char_unsafe : MemSlice → ℕ → ℕ → M (Unit {0})
lev_memslice_append_char_unsafe ms at c = write ms.mb (ms.slice + at) 1 (λ i. c)

unfoldable pub lev_memslice_ensure_null : MemSlice → ℕ → M (Unit {0})
lev_memslice_ensure_null ms at = write ms.mb (ms.slice + at) 1 (λ i. 0)

unfoldable pub lev_memslice_append_char : MemSlice → ℕ → ℕ → M MemSlice
lev_memslice_append_char ms at c = do
  ms' ← lev_memslice_ensure_empty_length ms (at + 1)
  lev_memslice_append_char_unsafe ms' at c
  pure ms'

unfoldable pub lev_memslice_append_mem_unsafe : MemSlice → ℕ → (ℕ → ℕ) → ℕ → M (Unit {0})
lev_memslice_append_mem_unsafe ms from c len = write ms.mb (ms.slice + from) len c

unfoldable pub lev_memslice_append_mem : MemSlice → ℕ → (ℕ → ℕ) → ℕ → M MemSlice
lev_memslice_append_mem ms from c len = do
  ms' ← lev_memslice_ensure_empty_length ms (from + len)
  lev_memslice_append_mem_unsafe ms' from c len
  pure ms'

-- The loop of `lev_memslice_append_string` over the characters before the terminating 0.
unfoldable pub append_string_loop : List ℕ → ℕ → ℕ → ℕ → MemSlice → M (ℕ × MemSlice)
append_string_loop [] i from space ms = pure (from, ms)
append_string_loop (c ∷ cs) i from space ms = do
  ms' ← (if ltb space 1 then lev_memslice_resize ms (i + 1) else pure ms)
  write ms'.mb (ms'.slice + from) 1 (λ j. c)
  append_string_loop cs (i + 1) (from + 1)
      (size_sub (if ltb space 1 then lev_memslice_empty_length ms' else space) 1) ms'

unfoldable pub lev_memslice_append_string : MemSlice → ℕ → List ℕ → M (ℕ × MemSlice)
lev_memslice_append_string ms from str = do
  r ← append_string_loop str 0 from (lev_memslice_empty_length ms) ms
  pure (size_sub r.0 from, r.1)
