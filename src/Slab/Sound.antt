-- ===== src/Slab/Sound.antt =====
-- `lev_slab_getBlock` of src/lev_slab.c, on heaps whose pools are in order.
use lev.Base.Int.{pos}
use mathlib.Core.Path.{subst}
use lev.Slab.Steps.{
  malloc-IsHeap, fresh_off, same_block, other_block, taken-IsHeap, taken_off, taken, held_below,
  set_block-IsHeap,
}
use lev.Slab.Pools.{IsHeap, shelved, class_size_min, count, hit_refl}
use lev.Base.{
  [], ℕ, List, ◌≡◌, some, ◌≤◌, ◌==◌, false, arith, ◌∷◌, ap, refl, sym, ◌*◌, Bool-cases, ◌∙◌, leb,
  inl, inr,
}
use lev.Slab.{
  Class, take_block, Heap, malloc, MemBlock, class_size, raw_block, class_of, lev_slab_get_block,
  set_block, hand_out, mem_1k, mem_8k, mem_16k, mem_64k, mem_1024k,
}

take_block_empty :
    (cl : Class) (h : Heap)
    → (h.allocators cl).pool ≡ []
    → take_block cl h ≡ malloc (class_size cl) h
unfolding take_block
take_block_empty cl h e = rw (e, take_block) refl

take_block_full :
    (cl : Class) (p : ℕ) (ps : List ℕ) (h : Heap) (k : IsHeap h)
    → (h.allocators cl).pool ≡ p ∷ ps
    → take_block cl h ≡ (p, taken cl p ps h k)
unfolding take_block
take_block_full cl p ps h k e = rw (e, take_block) refl

-- A block of a class, off the shelves, as `lev_slab_getBlock` finds it.
record IsTaken (cl : Class) (h : Heap) (r : ℕ × Heap) : Type 0 where
  is_heap : IsHeap r.1
  off : shelved r.0 r.1 ≡ 0
  found : MemBlock
  holds : r.1.block r.0 ≡ some found
  fits : class_size cl ≤ found.room
  others : (q : ℕ) → (r.0 == q) ≡ false → r.1.block q ≡ h.block q

malloc-IsTaken : (cl : Class) (h : Heap) → IsHeap h → IsTaken cl h (malloc (class_size cl) h)
unfolding malloc
malloc-IsTaken cl h k = record {
  is_heap = malloc-IsHeap (class_size cl) h k (class_size_min cl);
  off = fresh_off h k;
  found = raw_block (class_size cl) (h.garbage h.next);
  holds = same_block h.next h.next _ h (ground arith);
  fits = omega arith;
  others = λ q ne. other_block h.next q _ h ne;
}

taken-IsTaken :
    (cl : Class) (p : ℕ) (ps : List ℕ) (h : Heap) (k : IsHeap h)
    → (h.allocators cl).pool ≡ p ∷ ps
    → IsTaken cl h (p, taken cl p ps h k)
taken-IsTaken cl p ps h k e =
    let (b, f, z, r) = k.kept cl p (omega (arith, ap (count p) e, hit_refl p)) in
    record {
      is_heap = taken-IsHeap cl p ps h k e;
      off = taken_off cl p ps h k e;
      found = b;
      holds = f;
      fits = r;
      others = λ q ne. refl;
    }

take_block-IsTaken : (cl : Class) (h : Heap) → IsHeap h → IsTaken cl h (take_block cl h)
take_block-IsTaken cl h k = go (h.allocators cl).pool refl
  where
    go : (ps : List ℕ) → (h.allocators cl).pool ≡ ps → IsTaken cl h (take_block cl h)
    go [] e = subst (IsTaken cl h) (sym (take_block_empty cl h e)) (malloc-IsTaken cl h k)
    go (p ∷ ps) e =
        subst (IsTaken cl h) (sym (take_block_full cl p ps h k e)) (taken-IsTaken cl p ps h k e)

-- The smallest class that a size fits.
class_of-fits :
    (size : ℕ)
    → size ≤ 1024 * 1024
    → (cl : Class) × (class_of size ≡ some cl) × (size ≤ class_size cl)
unfolding class_of
class_of-fits size l = elim (Bool-cases (leb size 1024)) [
  | inl a ↦ (mem_1k, rw a refl, ground arith)
  | inr a ↦ elim (Bool-cases (leb size (8 * 1024))) [
    | inl b ↦ (mem_8k, rw (a, b) refl, ground arith)
    | inr b ↦ elim (Bool-cases (leb size (16 * 1024))) [
      | inl c ↦ (mem_16k, rw (a, b, c) refl, ground arith)
      | inr c ↦ elim (Bool-cases (leb size (64 * 1024))) [
        | inl d ↦ (mem_64k, rw (a, b, c, d) refl, ground arith)
        | inr d ↦ (mem_1024k, ground arith, ground arith)
      ]
    ]
  ]
]

-- What `lev_slab_getBlock` gives for a size: a block that is off the shelves, large enough, empty and
-- without references, and every other block as it was.
abbrev pub IsHandedOut : ℕ → Heap → ℕ × Heap → Type 0
IsHandedOut size h (p, h') =
    IsHeap h'
    × (shelved p h' ≡ 0)
    × ((b : MemBlock) × (h'.block p ≡ some b)
        × (size ≤ b.size)
        × (class_of size ≡ some b.allocator)
        × (b.size ≡ class_size b.allocator)
        × (b.size ≤ b.room)
        × (b.refcount ≡ pos 0)
        × (b.nbytes ≡ 0))
    × ((q : ℕ) → (p == q) ≡ false → h'.block q ≡ h.block q)

hand_out_lem :
    (size : ℕ) (cl : Class) (h : Heap) (r : ℕ × Heap) (t : IsTaken cl h r)
    → size ≤ class_size cl
    → class_of size ≡ some cl
    → IsHandedOut size h (r.0, set_block r.0 (some (hand_out cl t.found)) r.1)
hand_out_lem size cl h (p, h') t l c = (
  set_block-IsHeap p h' t.is_heap t.off (hand_out cl t.found)
      (held_below p t.found h' t.is_heap t.holds) t.fits,
  t.off,
  (hand_out cl t.found, same_block p p _ h' (ground arith), l, c, refl, t.fits, refl, refl),
  λ q ne. other_block p q _ h' ne ∙ t.others q ne,
)

-- For a size up to 1 MB, `lev_slab_getBlock` gives a block that no pool holds, of the size of the
-- class for the size asked for, which is as large at least, inside what was allocated, with no
-- references and no used bytes. The pools stay in order,
-- and no other block changes.
pub get_block-IsHandedOut :
    (size : ℕ) (h : Heap)
    → IsHeap h
    → size ≤ 1024 * 1024
    → (r : ℕ × Heap) × (lev_slab_get_block size h ≡ some r) × IsHandedOut size h r
unfolding lev_slab_get_block
get_block-IsHandedOut size h k l =
    let (cl, e, fits) = class_of-fits size l in
    let t = take_block-IsTaken cl h k in
    (
      (
        (take_block cl h).0,
        set_block (take_block cl h).0 (some (hand_out cl t.found)) (take_block cl h).1,
      ),
      rw (e, lev_slab_get_block, t.holds) refl,
      hand_out_lem size cl h (take_block cl h) t fits e,
    )
