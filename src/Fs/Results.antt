-- ===== src/Fs/Results.antt =====
-- What src/lev_new_fs.c pushes for a request that is done: `push_results` and the functions it calls.
use lev.Base.{
  ℕ, zero, suc, ◌+◌, ◌-◌, ◌%◌, ◌/◌, ◌^◌, List, [], ◌∷◌, ◌++◌, Option, none, some, Bool, true, false,
  ◌==◌, if◌then◌else◌, bit_and, not,
}
use lev.Base.Int.{ℤ, pos, negsuc}

-- The fields of `uv_statbuf_t` that are read.
pub record Stat : Type 0 where
  pub st_dev : ℕ
  pub st_ino : ℕ
  pub st_mode : ℕ
  pub st_nlink : ℕ
  pub st_gid : ℕ
  pub st_uid : ℕ
  pub st_rdev : ℕ
  pub st_size : ℕ
  pub st_blksize : ℕ
  pub st_blocks : ℕ
  pub st_atime : ℕ
  pub st_mtime : ℕ
  pub st_ctime : ℕ

-- The table that is pushed: the thirteen numbers, the seven booleans and the text.
pub record StatTable : Type 0 where
  pub numbers : Stat
  pub is_file : Bool
  pub is_directory : Bool
  pub is_character_device : Bool
  pub is_block_device : Bool
  pub is_fifo : Bool
  pub is_symbolic_link : Bool
  pub is_socket : Bool
  pub permission : List ℕ

-- Of Linux: S_IFMT, and the values of the S_IF constants under it.
abbrev pub s_ifmt : ℕ
s_ifmt = 0xf000

abbrev pub is_type : ℕ → ℕ → Bool
is_type value mode = bit_and mode s_ifmt == value

-- `%o`, on fuel for the digits: 22 are enough for 64 bits.
abbrev pub octal : ℕ → ℕ → List ℕ
octal zero n = []
octal (suc fuel) n =
    let rest = octal fuel (n / 8) in
    if n / 8 == 0 then (b'0' + n) ∷ [] else rest ++ (b'0' + n % 8) ∷ []

-- "0%o" of `s->st_mode & ~S_IFMT`.
unfoldable pub permission_text : ℕ → List ℕ
permission_text mode = b'0' ∷ octal 22 (bit_and mode (2 ^ 32 - 1 - s_ifmt))

unfoldable pub push_fs_stat : Stat → StatTable
push_fs_stat s = record {
  numbers = s;
  is_file = is_type 0x8000 s.st_mode;
  is_directory = is_type 0x4000 s.st_mode;
  is_character_device = is_type 0x2000 s.st_mode;
  is_block_device = is_type 0x6000 s.st_mode;
  is_fifo = is_type 0x1000 s.st_mode;
  is_symbolic_link = is_type 0xa000 s.st_mode;
  is_socket = is_type 0xc000 s.st_mode;
  permission = permission_text s.st_mode;
}

-- The text up to the next NUL, and what stands behind it: `strchr`, and `q + 1`. `none` is that the
-- memory ends before.
abbrev pub up_to_nul : List ℕ → Option (List ℕ × List ℕ)
up_to_nul [] = none
up_to_nul (c ∷ s) =
    let rest = up_to_nul s in
    if c == 0 then some ([], s) else (elim rest [ none ↦ none | some (t, u) ↦ some (c ∷ t, u) ])

-- The table of the names, in the order of the indices.
unfoldable pub push_readdir_results : ℕ → List ℕ → Option (List (List ℕ))
push_readdir_results zero p = some []
push_readdir_results (suc n) p = elim (up_to_nul p) [
  | none ↦ none
  | some (name, q) ↦ elim (push_readdir_results n q) [
    | none ↦ none
    | some names ↦ some (name ∷ names)
  ]
]

-- `req->fs_type` with `req->ptr`, for the calls that have results; `other` is the rest.
pub data Done : Type 0 where
  opened read written other : Done
  lstat fstat stat : Stat → Done
  readlink readdir : List ℕ → Done

pub data Value : Type 0 where
  nil : Value
  errname : List ℕ → Value
  number : ℤ → Value
  boolean : Bool → Value
  table : StatTable → Value
  string : List ℕ → Value
  names : List (List ℕ) → Value

-- A request: its result, the name of its error, and what it read.
pub record Req : Type 0 where
  pub result : ℤ
  pub error : List ℕ
  pub done : Done

abbrev pub failed : ℤ → Bool
failed (pos n) = false
failed (negsuc zero) = true
failed (negsuc (suc n)) = false

abbrev pub count : ℤ → ℕ
count (pos n) = n
count (negsuc n) = 0

abbrev pub push_done : ℤ → Done → Option (List Value)
push_done result opened = some (nil ∷ number result ∷ [])
push_done result read = some (nil ∷ number result ∷ [])
push_done result written = some (nil ∷ number result ∷ [])
push_done result (lstat s) = some (nil ∷ table (push_fs_stat s) ∷ [])
push_done result (fstat s) = some (nil ∷ table (push_fs_stat s) ∷ [])
push_done result (stat s) = some (nil ∷ table (push_fs_stat s) ∷ [])
push_done result (readlink path) = elim (up_to_nul path) [
  | none ↦ none
  | some (text, rest) ↦ some (nil ∷ string text ∷ [])
]
push_done result (readdir entries) = elim (push_readdir_results (count result) entries) [
  | none ↦ none
  | some found ↦ some (nil ∷ names found ∷ [])
]
push_done result other = some []

-- `none` is a read past the memory of the request.
unfoldable pub push_results : Req → Option (List Value)
push_results req =
    if failed req.result then some (errname req.error ∷ []) else push_done req.result req.done

unfoldable pub push_exists_results : Req → Bool
push_exists_results req = not (failed req.result)
