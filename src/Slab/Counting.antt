-- ===== src/Slab/Counting.antt =====
-- The reference counts of src/lev_slab.c: `lev_slab_incRef` and `lev_slab_decRefCount`.
use lev.Slab.Steps.{
  set_block-IsHeap, held_below, same_block, other_block, pushed-IsHeap, pushed_count, freed-IsHeap,
}
use lev.Base.{
  ℕ, zero, suc, ◌≡◌, some, none, ◌≤◌, ◌==◌, false, arith, ap, refl, ◌⊎◌, inl, inr, Bool-cases, ltb,
  length, ltb-true,
}
use lev.Base.Int.{ℤ, pos, inc, dec}
use lev.Slab.{
  Heap, MemBlock, class_size, set_block, lev_slab_dec_ref_count, lev_slab_inc_ref, release,
}
use lev.Slab.Pools.{IsHeap, shelved, hit_refl}

-- A block on no shelf, with `n` references.
abbrev pub Counts : ℕ → ℕ → Heap → Type 0
Counts p n h = (b : MemBlock) × (shelved p h ≡ 0) × (h.block p ≡ some b) × (b.refcount ≡ pos n)

-- A block after its last reference: on a shelf, or freed.
abbrev pub IsGivenBack : ℕ → Heap → Type 0
IsGivenBack p h = (shelved p h ≡ 1) ⊎ (h.block p ≡ none)

-- The state behind a step that touches one block.
abbrev pub Steps : ℕ → Heap → Heap → Type 0
Steps p h h' = IsHeap h' × ((q : ℕ) → (p == q) ≡ false → h'.block q ≡ h.block q)

counted :
    (p n : ℕ) (b : MemBlock) (h : Heap)
    → IsHeap h
    → shelved p h ≡ 0
    → h.block p ≡ some b
    → (z : ℤ) → Steps p h (set_block p (some (record b { refcount = z })) h)
counted p n b h k off e z = (
  set_block-IsHeap p h k off (record b { refcount = z }) (held_below p b h k e) (k.owned p b e),
  λ q ne. other_block p q _ h ne,
)

-- `lev_slab_incRef` on a block that no pool holds returns the new count, and keeps the pools in order
-- and the other blocks as they were.
pub inc_ref-Counts :
    (p n : ℕ) (h : Heap)
    → IsHeap h
    → Counts p n h
    → (h' : Heap) × (lev_slab_inc_ref p h ≡ some (pos (suc n), h'))
      × Steps p h h'
      × Counts p (suc n) h'
unfolding lev_slab_inc_ref
inc_ref-Counts p n h k (b, off, e, z) =
    let b' : MemBlock = record b { refcount = inc b.refcount } in
    (
      set_block p (some b') h,
      rw (e, lev_slab_inc_ref, z) refl,
      counted p n b h k off e (inc b.refcount),
      (b', off, same_block p p _ h (ground arith), ap inc z),
    )

-- The last reference of a block.
release-IsGivenBack :
    (p : ℕ) (b : MemBlock) (h : Heap)
    → IsHeap h
    → shelved p h ≡ 0
    → (b₀ : MemBlock) × (h.block p ≡ some b₀)
    → class_size b.allocator ≤ b.room
    → b.refcount ≡ pos 0
    → Steps p h (release p b h) × IsGivenBack p (release p b h)
unfolding release
release-IsGivenBack p b h k off (b₀, e) room z =
    let h₁ = set_block p (some b) h in
    let k₁ = set_block-IsHeap p h k off b (held_below p b₀ h k e) room in
    let a = h.allocators b.allocator in
    elim (Bool-cases (ltb (length a.pool) a.pool_min)) [
      | inl t ↦
          rw (t, release)
            (
              (
                pushed-IsHeap p h₁ k₁ off b.allocator b (same_block p p _ h (ground arith)) z room
                    (ltb-true _ _ t),
                λ q ne. other_block p q _ h ne,
              ),
              inl (omega (arith, pushed_count p h₁ k₁ off b.allocator p, hit_refl p)),
            )
      | inr f ↦
          rw (f, release)
            (
              (freed-IsHeap p h k off, λ q ne. other_block p q _ h ne),
              inr (same_block p p _ h (ground arith)),
            )
    ]

-- `lev_slab_decRefCount` on a block with n + 1 references, on no shelf, returns n, whatever count it
-- is asked to take; a block without references goes on a shelf or is freed, one with references
-- stays. The pools stay in order and the other blocks as they were.
pub dec_ref_count-Counts :
    (p n count : ℕ) (h : Heap)
    → IsHeap h
    → Counts p (suc n) h
    → (h' : Heap) × (lev_slab_dec_ref_count (some p) count h ≡ some (pos n, h'))
      × Steps p h h'
      × (elim n as (λ _. Type 0) [ zero ↦ IsGivenBack p h' | suc m ↦ Counts p n h' ])
unfolding lev_slab_dec_ref_count
dec_ref_count-Counts p zero count h k (b, off, e, z) =
    let b' : MemBlock = record b { refcount = dec b.refcount } in
    let z' : b'.refcount ≡ pos 0 = ap dec z in
    let (s, g) = release-IsGivenBack p b' h k off (b, e) (k.owned p b e) z' in
    (release p b' h, rw (e, lev_slab_dec_ref_count, z') refl, s, g)
dec_ref_count-Counts p (suc n) count h k (b, off, e, z) =
    let b' : MemBlock = record b { refcount = dec b.refcount } in
    (
      set_block p (some b') h,
      rw (e, lev_slab_dec_ref_count, z) refl,
      counted p n b h k off e (dec b.refcount),
      (b', off, same_block p p _ h (ground arith), ap dec z),
    )
