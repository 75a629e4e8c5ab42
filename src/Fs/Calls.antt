-- ===== src/Fs/Calls.antt =====
-- What the functions of src/lev_new_fs.c hand to libuv, for arguments of the types that they check.
use lev.Base.{
  ℕ, List, Option, none, some, Bool, false, ltb, ◌==◌, if◌then◌else◌, ◌∷◌, ◌≤◌, [], ◌≢◌, ◌≡◌, arith,
  ◌⊎◌, ◌<◌, inl, inr,
}
use lev.Base.Int.{ℤ, pos, dec}
use lev.Buffer.Memory.{MemSlice}
use lev.Handle.Receive.{as_size}
use lev.Fs.Modes.{mode_of, fs_to_flags}

-- Times are doubles, by their bits. A read and a write have a place and a number of bytes in memory.
pub data UvCall : Type 0 where
  uv_fs_close uv_fs_fdatasync uv_fs_fsync uv_fs_fstat : ℤ → UvCall
  uv_fs_stat uv_fs_lstat uv_fs_readdir uv_fs_readlink uv_fs_rmdir uv_fs_unlink : List ℕ → UvCall
  uv_fs_link uv_fs_symlink uv_fs_rename : List ℕ → List ℕ → UvCall
  uv_fs_chmod uv_fs_mkdir : List ℕ → ℕ → UvCall
  uv_fs_fchmod : ℤ → ℕ → UvCall
  uv_fs_chown : List ℕ → ℤ → ℤ → UvCall
  uv_fs_fchown : ℤ → ℤ → ℤ → UvCall
  uv_fs_utime : List ℕ → ℕ → ℕ → UvCall
  uv_fs_futime : ℤ → ℕ → ℕ → UvCall
  uv_fs_read uv_fs_write : ℤ → MemSlice → ℕ → ℤ → UvCall
  uv_fs_ftruncate : ℤ → ℤ → UvCall
  uv_fs_open : List ℕ → ℕ → ℕ → UvCall

-- An optional argument, and its default.
abbrev pub opt {ℓ} : {A : Type ℓ} → Option A → A → A
opt none d = d
opt (some a) d = a

unfoldable pub fs_chmod : List ℕ → List ℕ → UvCall
fs_chmod path mode_str = uv_fs_chmod path (mode_of mode_str)

unfoldable pub fs_fchmod : ℤ → List ℕ → UvCall
fs_fchmod fd mode_str = uv_fs_fchmod fd (mode_of mode_str)

unfoldable pub fs_mkdir : List ℕ → Option (List ℕ) → UvCall
fs_mkdir path mode_str = uv_fs_mkdir path (mode_of (opt mode_str (b'0' ∷ b'7' ∷ b'7' ∷ b'7' ∷ [])))

-- `none` is the error "Invalid flags".
unfoldable pub fs_open : List ℕ → List ℕ → Option (List ℕ) → Option UvCall
fs_open path flags_str mode_str = elim (fs_to_flags flags_str) [
  | none ↦ none
  | some flags ↦
      some (uv_fs_open path flags (mode_of (opt mode_str (b'0' ∷ b'6' ∷ b'6' ∷ b'6' ∷ []))))
]

-- The functions that pass their arguments on.
unfoldable pub fs_close : ℤ → UvCall
fs_close fd = uv_fs_close fd

unfoldable pub fs_fdatasync : ℤ → UvCall
fs_fdatasync fd = uv_fs_fdatasync fd

unfoldable pub fs_fsync : ℤ → UvCall
fs_fsync fd = uv_fs_fsync fd

unfoldable pub fs_fstat : ℤ → UvCall
fs_fstat fd = uv_fs_fstat fd

unfoldable pub fs_stat : List ℕ → UvCall
fs_stat path = uv_fs_stat path

unfoldable pub fs_lstat : List ℕ → UvCall
fs_lstat path = uv_fs_lstat path

unfoldable pub fs_readdir : List ℕ → UvCall
fs_readdir path = uv_fs_readdir path

unfoldable pub fs_readlink : List ℕ → UvCall
fs_readlink path = uv_fs_readlink path

unfoldable pub fs_rmdir : List ℕ → UvCall
fs_rmdir path = uv_fs_rmdir path

unfoldable pub fs_unlink : List ℕ → UvCall
fs_unlink path = uv_fs_unlink path

unfoldable pub fs_link : List ℕ → List ℕ → UvCall
fs_link path new_path = uv_fs_link path new_path

unfoldable pub fs_symlink : List ℕ → List ℕ → UvCall
fs_symlink path new_path = uv_fs_symlink path new_path

unfoldable pub fs_rename : List ℕ → List ℕ → UvCall
fs_rename path new_path = uv_fs_rename path new_path

unfoldable pub fs_chown : List ℕ → ℤ → ℤ → UvCall
fs_chown path uid gid = uv_fs_chown path uid gid

unfoldable pub fs_fchown : ℤ → ℤ → ℤ → UvCall
fs_fchown fd uid gid = uv_fs_fchown fd uid gid

unfoldable pub fs_utime : List ℕ → ℕ → ℕ → UvCall
fs_utime path atime mtime = uv_fs_utime path atime mtime

unfoldable pub fs_futime : ℤ → ℕ → ℕ → UvCall
fs_futime fd atime mtime = uv_fs_futime fd atime mtime

unfoldable pub fs_ftruncate : ℤ → ℤ → UvCall
fs_ftruncate fd file_size = uv_fs_ftruncate fd file_size

-- The number of bytes of a read or a write: all of the slice for 0.
unfoldable pub transfer_length : MemSlice → Option ℤ → ℕ
transfer_length ms file_until =
    let asked = as_size (opt file_until (pos 0)) in
    let cut = if ltb ms.until asked then ms.until else asked in if cut == 0 then ms.until else cut

-- Positions in Lua are one more.
unfoldable pub fs_read : ℤ → MemSlice → Option ℤ → Option ℤ → UvCall
fs_read fd ms file_pos file_until =
    uv_fs_read fd ms (transfer_length ms file_until) (dec (opt file_pos (pos 0)))

-- The fourth argument of `fs_write`, which is read as a number and then as the callback.
pub data Fourth : Type 0 where
  absent callback : Fourth
  given : ℤ → Fourth

-- The call, and whether there is a callback; `none` is the error that a number is expected.
unfoldable pub fs_write : ℤ → MemSlice → Option ℤ → Fourth → Option (UvCall × Bool)
fs_write fd ms file_pos absent =
    some (uv_fs_write fd ms (transfer_length ms none) (dec (opt file_pos (pos 0))), false)
fs_write fd ms file_pos (given n) =
    some (uv_fs_write fd ms (transfer_length ms (some n)) (dec (opt file_pos (pos 0))), false)
fs_write fd ms file_pos callback = none

-- The bytes that a read or a write of libuv touches lie in the slice, whatever the script asks for. A
-- number of bytes other than 0 that the slice has is kept as it is, and for 0, or for more than the
-- slice has, it is the whole slice.
pub transfer_length_bounds :
    (ms : MemSlice) (file_until : Option ℤ)
    → (transfer_length ms file_until ≤ ms.until)
      × (as_size (opt file_until (pos 0)) ≢ 0
          → as_size (opt file_until (pos 0)) ≤ ms.until
          → transfer_length ms file_until ≡ as_size (opt file_until (pos 0)))
      × ((as_size (opt file_until (pos 0)) ≡ 0) ⊎ (ms.until < as_size (opt file_until (pos 0)))
          → transfer_length ms file_until ≡ ms.until)
unfolding transfer_length
transfer_length_bounds ms file_until = (
  ground arith,
  λ n l. ground (arith, n, l),
  λ h. elim h [ inl e ↦ ground (arith, e) | inr l ↦ ground (arith, l) ],
)
