-- ===== src/Slab.antt =====
-- The slab allocator, src/lev_slab.c and lev_slab.h: five pools of memory blocks with reference
-- counts.
pub mod Pools
pub mod Steps
pub mod Sound
pub mod Counting
pub mod Filling
use Prim.Native.Nat.{min}
use lev.Base.{
  ℕ, zero, suc, ◌*◌, Option, none, some, List, [], ◌∷◌, ltb, leb, ◌==◌, if◌then◌else◌, length, Bool,
  true, false,
}
use lev.Base.Int.{ℤ, pos, negsuc, inc, dec}
use mathlib.Core.Logic.{ite}

-- The five allocators, and the data bytes of their blocks.
pub data Class : Type 0 where
  mem_1k mem_8k mem_16k mem_64k mem_1024k : Class

unfoldable pub Class-discrete : Discrete Class
Class-discrete = hlevel

abbrev pub class_size : Class → ℕ
class_size mem_1k = 1024
class_size mem_8k = 8 * 1024
class_size mem_16k = 16 * 1024
class_size mem_64k = 64 * 1024
class_size mem_1024k = 1024 * 1024

-- SLAB_MAXFREELIST.
abbrev pub slab_maxfreelist : ℕ
slab_maxfreelist = 1024 * 16 * 2

-- `struct _MemBlock`. `room` is the number of data bytes that `malloc` gave, and `bytes` holds them.
pub record MemBlock : Type 0 where
  pub allocator : Class
  pub refcount : ℤ
  pub size : ℕ
  pub nbytes : ℕ
  pub room : ℕ
  pub bytes : ℕ → ℕ

-- `struct _lev_slab_allocator`: the used part of `pool`, the last entry first (its length is
-- `pool_count`), and `pool_min`.
pub record Allocator : Type 0 where
  pub pool : List ℕ
  pub pool_min : ℕ

-- The allocators, the blocks that `malloc` gave and `free` has not taken, by address, the next
-- address that `malloc` gives, and what it leaves in the bytes of a block.
pub record Heap : Type 0 where
  pub allocators : Class → Allocator
  pub block : ℕ → Option MemBlock
  pub next : ℕ
  pub garbage : ℕ → ℕ → ℕ

abbrev pub set_allocator : Class → Allocator → Heap → Heap
set_allocator cl a h = record h { allocators = λ c. ite (Class-discrete cl c) a (h.allocators c) }

abbrev pub set_block : ℕ → Option MemBlock → Heap → Heap
set_block p b h = record h { block = λ q. if p == q then b else h.block q }

-- The header of a block from `malloc` is not set; the values here are not read before
-- `lev_slab_get_block` sets them.
abbrev pub raw_block : ℕ → (ℕ → ℕ) → MemBlock
raw_block n bytes = record {
  allocator = mem_1k;
  refcount = pos 0;
  size = 0;
  nbytes = 0;
  room = n;
  bytes = bytes;
}

-- `malloc(sizeof(MemBlock) + n)`: a block at an address of its own.
unfoldable pub malloc : ℕ → Heap → ℕ × Heap
malloc n h = (
  h.next,
  record (set_block h.next (some (raw_block n (h.garbage h.next))) h) { next = suc h.next },
)

abbrev pub push_pool : Class → ℕ → Heap → Heap
push_pool cl p h = let a = h.allocators cl in set_allocator cl (record a { pool = p ∷ a.pool }) h

-- The `while` loop of `_lev_slab_fill`, by the rounds that SLAB_MAXFREELIST leaves.
unfoldable pub fill_loop : ℕ → Class → ℕ → Heap → Heap
fill_loop zero cl blocksize h = h
fill_loop (suc rounds) cl blocksize h =
    let a = h.allocators cl in
    let more =
      (let (p, h') = malloc blocksize h in fill_loop rounds cl blocksize (push_pool cl p h')) in
    if length a.pool == a.pool_min then h else more

unfoldable pub slab_fill_one : Class → ℕ → ℕ → Heap → Heap
slab_fill_one cl blocksize min_number h =
    fill_loop slab_maxfreelist cl blocksize
      (set_allocator cl (record { pool = []; pool_min = min min_number slab_maxfreelist }) h)

unfoldable pub lev_slab_fill : Heap → Heap
lev_slab_fill h =
    let h₁ = slab_fill_one mem_1k 1024 1024 h in
    let h₂ = slab_fill_one mem_8k (8 * 1024) 512 h₁ in
    let h₃ = slab_fill_one mem_16k (16 * 1024) 8 h₂ in
    let h₄ = slab_fill_one mem_64k (64 * 1024) 8 h₃ in slab_fill_one mem_1024k (1024 * 1024) 0 h₄

-- The allocator for a size, or NULL.
unfoldable pub class_of : ℕ → Option Class
class_of size =
    if leb size 1024
    then some mem_1k
    else if leb size (8 * 1024)
    then some mem_8k
    else if leb size (16 * 1024)
    then some mem_16k
    else if leb size (64 * 1024)
    then some mem_64k
    else if leb size (1024 * 1024)
    then some mem_1024k
    else none

-- The header that a block is given when it is handed out.
abbrev pub hand_out : Class → MemBlock → MemBlock
hand_out cl b = record b { allocator = cl; refcount = pos 0; size = class_size cl; nbytes = 0 }

-- A pointer from the pool, or a new block.
unfoldable pub take_block : Class → Heap → ℕ × Heap
take_block cl h = elim (h.allocators cl).pool [
  | [] ↦ malloc (class_size cl) h
  | p ∷ ps ↦ (p, set_allocator cl (record { pool = ps; pool_min = (h.allocators cl).pool_min }) h)
]

-- `none` is NULL.
unfoldable pub lev_slab_get_block : ℕ → Heap → Option (ℕ × Heap)
lev_slab_get_block size h = elim (class_of size) [
  | none ↦ none
  | some cl ↦
      let (p, h') = take_block cl h in
      some (p, set_block p (elim (h'.block p) [ none ↦ none | some b ↦ some (hand_out cl b) ]) h')
]

-- `none` is an access to a block that has been freed.
unfoldable pub lev_slab_inc_ref : ℕ → Heap → Option (ℤ × Heap)
lev_slab_inc_ref p h = elim (h.block p) [
  | none ↦ none
  | some b ↦ some (inc b.refcount, set_block p (some (record b { refcount = inc b.refcount })) h)
]

abbrev pub is_zero : ℤ → Bool
is_zero (pos zero) = true
is_zero (pos (suc n)) = false
is_zero (negsuc n) = false

-- Back to the pool if that has room, else `free`.
unfoldable pub release : ℕ → MemBlock → Heap → Heap
release p b h =
    let a = h.allocators b.allocator in
    if ltb (length a.pool) a.pool_min
    then push_pool b.allocator p (set_block p (some b) h)
    else set_block p none h

-- The block is a pointer that may be NULL. `count` is not used.
unfoldable pub lev_slab_dec_ref_count : Option ℕ → ℕ → Heap → Option (ℤ × Heap)
lev_slab_dec_ref_count none count h = some (pos 0, h)
lev_slab_dec_ref_count (some p) count h = elim (h.block p) [
  | none ↦ none
  | some b ↦
      let b' = record b { refcount = dec b.refcount } in
      if is_zero b'.refcount
      then some (pos 0, release p b' h)
      else some (b'.refcount, set_block p (some b') h)
]
