-- ===== src/Slab/Filling.antt =====
-- Filling the pools: `_lev_slab_fill` and `lev_slab_fill` of src/lev_slab.c.
use lev.Base.Int.{pos}
use lev.Slab.Steps.{pushed-IsHeap, malloc-IsHeap, fresh_off, same_block}
use lev.Base.{
  [], ℕ, zero, suc, ◌≡◌, some, ◌≤◌, ◌==◌, arith, ◌∷◌, ap, refl, length, ◌-◌, Bool-cases, ◌<◌, inl,
  ==_iff, inr, differ, ◌∙◌, ◌*◌,
}
use Prim.Native.Nat.{min}
use lev.Slab.{
  Class, Heap, class_size, set_allocator, fill_loop, slab_fill_one, lev_slab_fill, Class-discrete,
  malloc, push_pool, Allocator, mem_1k, mem_8k, mem_16k, mem_64k, mem_1024k, raw_block, MemBlock,
  slab_maxfreelist,
}
use lev.Slab.Pools.{IsHeap, class_size_min, each_pool, shelved-set, count}

-- The pool that is set.
set_allocator_same :
    (cl : Class) (a : Allocator) (h : Heap) → (set_allocator cl a h).allocators cl ≡ a
unfolding Class-discrete
set_allocator_same mem_1k a h = refl
set_allocator_same mem_8k a h = refl
set_allocator_same mem_16k a h = refl
set_allocator_same mem_64k a h = refl
set_allocator_same mem_1024k a h = refl

-- The limit of a pool, and the blocks that it lacks.
abbrev limit : Class → Heap → ℕ
limit cl h = (h.allocators cl).pool_min

abbrev lacks : Class → Heap → ℕ
lacks cl h = limit cl h - length (h.allocators cl).pool

-- One more block in a pool.
abbrev add_block : Class → ℕ → Heap → Heap
add_block cl n h = push_pool cl (malloc n h).0 (malloc n h).1

add_block-lacks :
    (cl : Class) (n : ℕ) (h : Heap)
    → (limit cl (add_block cl n h) ≡ limit cl h) × (lacks cl (add_block cl n h) ≡ lacks cl h - 1)
unfolding malloc
add_block-lacks cl n h =
    let same =
      set_allocator_same cl
        (record { pool = h.next ∷ (h.allocators cl).pool; pool_min = limit cl h }) (malloc n h).1 in
    (ap (λ a. a.pool_min) same, omega (arith, ap (λ a. a.pool_min - length a.pool) same))

add_block-IsHeap :
    (cl : Class) (n : ℕ) (h : Heap)
    → IsHeap h
    → class_size cl ≤ n
    → 0 < lacks cl h
    → IsHeap (add_block cl n h)
unfolding malloc
add_block-IsHeap cl n h k large fits =
    pushed-IsHeap h.next (malloc n h).1 (malloc-IsHeap n h k (omega (arith, class_size_min cl)))
      (fresh_off h k) cl (raw_block n (h.garbage h.next))
      (same_block h.next h.next _ h (ground arith)) refl large (omega arith)

fill_loop-Fills :
    (rounds : ℕ) (cl : Class) (n : ℕ) (h : Heap)
    → IsHeap h
    → class_size cl ≤ n
    → lacks cl h ≤ rounds
    → IsHeap (fill_loop rounds cl n h)
      × (length ((fill_loop rounds cl n h).allocators cl).pool ≡ limit cl h)
unfolding fill_loop
fill_loop-Fills zero cl n h k large l = (k, omega (arith, k.bound cl))
fill_loop-Fills (suc rounds) cl n h k large l =
    elim (Bool-cases (length (h.allocators cl).pool == limit cl h)) [
      | inl t ↦ rw (t, fill_loop) (k, (==_iff _ _).0 t)
      | inr f ↦
          let (m, d) = add_block-lacks cl n h in
          let some_lack : 0 < lacks cl h = ground (arith, k.bound cl, differ _ _ f) in
          let (k', e) =
            fill_loop-Fills rounds cl n (add_block cl n h)
              (add_block-IsHeap cl n h k large some_lack) large (omega arith) in
          rw (f, fill_loop) (k', e ∙ m)
    ]

-- A pool that is emptied, with a limit of its own; its blocks are lost.
emptied : Class → ℕ → Heap → Heap
emptied cl bound h = set_allocator cl (record { pool = []; pool_min = bound }) h

emptied-IsHeap : (cl : Class) (bound : ℕ) (h : Heap) → IsHeap h → IsHeap (emptied cl bound h)
unfolding emptied
emptied-IsHeap cl bound h k = record {
  bound = each_pool (λ c a. length a.pool ≤ a.pool_min) cl _ h (omega arith) k.bound;
  once = λ q. omega (arith, shelved-set cl (record { pool = []; pool_min = bound }) h q, k.once q);
  kept =
      each_pool
        (λ c a.
          (q : ℕ)
          → 0 < count q a.pool
          → (b : MemBlock) × (h.block q ≡ some b) × (b.refcount ≡ pos 0) × (class_size c ≤ b.room))
        cl _ h (λ q l. absurd (omega arith)) k.kept;
  owned = k.owned;
  fresh = k.fresh;
}

limit-emptied : (cl : Class) (bound : ℕ) (h : Heap) → limit cl (emptied cl bound h) ≡ bound
unfolding emptied
limit-emptied cl bound h =
    ap (λ a. a.pool_min) (set_allocator_same cl (record { pool = []; pool_min = bound }) h)

-- `_lev_slab_fill` with blocks of the class's size at least keeps the pools in order, and leaves
-- MIN(min_number, SLAB_MAXFREELIST) blocks in its pool.
pub slab_fill_one-Fills :
    (cl : Class) (blocksize min_number : ℕ) (h : Heap)
    → IsHeap h
    → class_size cl ≤ blocksize
    → IsHeap (slab_fill_one cl blocksize min_number h)
      × (length ((slab_fill_one cl blocksize min_number h).allocators cl).pool
          ≡ min min_number slab_maxfreelist)
unfolding slab_fill_one emptied
slab_fill_one-Fills cl blocksize min_number h k large =
    let bound = min min_number slab_maxfreelist in
    let m = limit-emptied cl bound h in
    let (k', e) =
      fill_loop-Fills slab_maxfreelist cl blocksize (emptied cl bound h)
        (emptied-IsHeap cl bound h k) large (omega (arith, m)) in
    (k', e ∙ m)

-- `lev_slab_fill` keeps the pools in order: from the empty heap of the program's start, it makes the
-- state that the other functions keep.
pub lev_slab_fill-IsHeap : (h : Heap) → IsHeap h → IsHeap (lev_slab_fill h)
unfolding lev_slab_fill
lev_slab_fill-IsHeap h k =
    let k₁ = slab_fill_one-Fills mem_1k 1024 1024 h k (omega arith) in
    let k₂ = slab_fill_one-Fills mem_8k (8 * 1024) 512 _ k₁.0 (omega arith) in
    let k₃ = slab_fill_one-Fills mem_16k (16 * 1024) 8 _ k₂.0 (omega arith) in
    let k₄ = slab_fill_one-Fills mem_64k (64 * 1024) 8 _ k₃.0 (omega arith) in
    (slab_fill_one-Fills mem_1024k (1024 * 1024) 0 _ k₄.0 (omega arith)).0
