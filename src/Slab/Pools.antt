-- ===== src/Slab/Pools.antt =====
-- How the pools of src/lev_slab.c and the blocks of the heap belong together.
use lev.Base.{ℕ, ◌+◌, ◌≤◌, ◌<◌, ◌≡◌, List, [], ◌∷◌, some, none, length, arith, if◌then◌else◌, ◌==◌}
use lev.Base.Int.{pos}
use lev.Slab.{
  Class, Class-discrete, mem_1k, mem_8k, mem_16k, mem_64k, mem_1024k, Heap, MemBlock, Allocator,
  set_allocator, class_size,
}
use mathlib.Core.Logic.{ite}
use mathlib.Core.Path.{subst}

-- How often an address stands on a shelf.
abbrev pub hit : ℕ → ℕ → ℕ
hit p q = if p == q then 1 else 0

abbrev pub count : ℕ → List ℕ → ℕ
count q [] = 0
count q (p ∷ ps) = hit p q + count q ps

-- How often an address stands in the pools.
abbrev pub shelved : ℕ → Heap → ℕ
shelved q h =
    count q (h.allocators mem_1k).pool
    + count q (h.allocators mem_8k).pool
    + count q (h.allocators mem_16k).pool
    + count q (h.allocators mem_64k).pool
    + count q (h.allocators mem_1024k).pool

-- The state in which the functions leave the allocator: no pool is over its limit; no address
-- stands in the pools twice; a block in a pool is free, with room for the class of the pool; every
-- block has the room of its own class; and `malloc` has not given the addresses from `next` on.
pub record IsHeap (h : Heap) : Type 0 where
  pub bound : (cl : Class) → length (h.allocators cl).pool ≤ (h.allocators cl).pool_min
  pub once : (p : ℕ) → shelved p h ≤ 1
  pub kept :
      (cl : Class) (p : ℕ)
      → 0 < count p (h.allocators cl).pool
      → (b : MemBlock) × (h.block p ≡ some b) × (b.refcount ≡ pos 0) × (class_size cl ≤ b.room)
  pub owned : (p : ℕ) (b : MemBlock) → h.block p ≡ some b → class_size b.allocator ≤ b.room
  pub fresh : (p : ℕ) → h.next ≤ p → h.block p ≡ none

-- The shelf that is set, and the others.
pub shelved-set :
    (cl : Class) (a : Allocator) (h : Heap) (q : ℕ)
    → shelved q (set_allocator cl a h) + count q (h.allocators cl).pool
      ≡ shelved q h + count q a.pool
unfolding Class-discrete
shelved-set mem_1k a h q = omega arith
shelved-set mem_8k a h q = omega arith
shelved-set mem_16k a h q = omega arith
shelved-set mem_64k a h q = omega arith
shelved-set mem_1024k a h q = omega arith

pub count-shelved : (cl : Class) (h : Heap) (q : ℕ) → count q (h.allocators cl).pool ≤ shelved q h
count-shelved mem_1k h q = omega arith
count-shelved mem_8k h q = omega arith
count-shelved mem_16k h q = omega arith
count-shelved mem_64k h q = omega arith
count-shelved mem_1024k h q = omega arith

-- A property of each pool holds when it holds of the one that is set and of those before.
pub each_pool :
    (P : Class → Allocator → Type 0) (cl : Class) (a : Allocator) (h : Heap)
    → P cl a
    → ((c : Class) → P c (h.allocators c))
    → (c : Class) → P c ((set_allocator cl a h).allocators c)
unfolding Class-discrete
each_pool P cl a h new old c = elim (Class-discrete cl c) as (λ d. P c (ite d a (h.allocators c))) [
  | Dec.yes e ↦ subst (λ x. P x a) e new
  | Dec.no _ ↦ old c
]

pub hit_refl : (p : ℕ) → hit p p ≡ 1
hit_refl p = ground arith

pub class_size_min : (cl : Class) → 1024 ≤ class_size cl
class_size_min mem_1k = omega arith
class_size_min mem_8k = omega arith
class_size_min mem_16k = omega arith
class_size_min mem_64k = omega arith
class_size_min mem_1024k = omega arith
