-- ===== src/Handle/Receive.antt =====
-- The block that a read fills: `on_alloc` and `lev_pushbuffer_from_static_mb` of
-- src/lev_new_base.c. `World` has that file's `_static_mb`.
pub mod Steps
pub mod Reads
use lev.Slab.{lev_slab_inc_ref, lev_slab_dec_ref_count}
use lev.Buffer.Slice.{static_for, lev_pushbuffer_from_mb}
use lev.Base.Int.{ℤ, pos, negsuc}
use lev.Buffer.Memory.{
  M, MemSlice, ◌>>=◌, ◌>>◌, get_static, load, pure, size_sub, set_static, store, size_add, fault,
  on_heap,
}
use lev.Base.{ℕ, Option, ◌^◌, ◌-◌, if◌then◌else◌, some, ◌==◌, none, suc, zero}

-- STATIC_MB_SIZE.
abbrev pub static_mb_size : ℕ
static_mb_size = 8192

-- `uv_buf_t`: `base` is an offset in the bytes of the block `mb`.
pub record UvBuf : Type 0 where
  pub mb : ℕ
  pub base : ℕ
  pub len : ℕ

-- The test of `_static_mb` is that of `lev_buffer_new`, with the size fixed.
unfoldable pub on_alloc : M UvBuf
on_alloc = do
  mb ← static_for static_mb_size
  b ← load mb
  pure (record { mb = mb; base = b.nbytes; len = size_sub b.size b.nbytes })

-- The block for a read, and whether it is still in `_static_mb` after this.
unfoldable pub keep_static : ℕ → M (Unit {0})
keep_static mb = do
  b ← load mb
  if b.size == static_mb_size
      then set_static none
      else (on_heap (lev_slab_inc_ref mb) >>= λ _. pure tt)

-- After an error: a block that is not in `_static_mb` any more is disposed of.
unfoldable pub dispose : ℕ → M (Option MemSlice)
dispose mb = do
  s ← get_static
  elim s [
    | none ↦ do
      _ ← on_heap (lev_slab_inc_ref mb)
      _ ← on_heap (lev_slab_dec_ref_count (some mb) 1)
      pure none
    | some _ ↦ pure none
  ]

-- `(size_t)nread`.
abbrev pub as_size : ℤ → ℕ
as_size (pos n) = n
as_size (negsuc n) = 2 ^ 64 - 1 - n

unfoldable pub push_read : ℕ → ℕ → M (Option MemSlice)
push_read mb nread = do
  b ← load mb
  ms ← lev_pushbuffer_from_mb mb nread (some b.nbytes)
  b' ← load mb
  store mb (record b' { nbytes = size_add b'.nbytes nread })
  pure (some ms)

-- `none` is that nothing was pushed.
unfoldable pub lev_pushbuffer_from_static_mb : ℤ → M (Option MemSlice)
lev_pushbuffer_from_static_mb nread = do
  s ← get_static
  elim s [
    | none ↦ λ w. fault
    | some mb ↦ do
      keep_static mb
      elim nread [
        | pos n ↦ push_read mb n
        | negsuc zero ↦ dispose mb
        | negsuc (suc n) ↦ push_read mb (as_size (negsuc (suc n)))
      ]
  ]
