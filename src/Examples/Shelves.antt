-- ===== src/Examples/Shelves.antt =====
-- The slab allocator and the reads: their theorems at concrete heaps.
use lev.Handle.Receive.Reads.{read-Counts, failed_read-IsGivenBack}
use lev.Handle.Receive.{on_alloc, lev_pushbuffer_from_static_mb}
use lev.Buffer.Memory.{◌>>=◌, ◌>>◌, write, ok}
use mathlib.Core.Option.{none-ne-some, some-injective}
use mathlib.Core.Path.{subst}
use lev.Slab.Counting.{Steps, Counts, dec_ref_count-Counts, IsGivenBack}
use lev.Slab.Sound.{IsHandedOut, get_block-IsHandedOut}
use lev.Slab.Filling.{lev_slab_fill-IsHeap}
use lev.Slab.Pools.{IsHeap}
use lev.Slab.{
  Heap, MemBlock, lev_slab_dec_ref_count, lev_slab_fill, lev_slab_get_block, mem_1k, class_size,
}
use lev.Base.{
  ℕ, ◌≤◌, ◌≡◌, refl, some, none, [], arith, if◌then◌else◌, ◌==◌, Bool-cases, inl, ap, sym, ◌∙◌, inr,
  false, ◌+◌, ◌<◌,
}
use lev.Base.Int.{pos, negsuc}

-- The heap at the start of the program.
abbrev empty_heap : Heap
empty_heap = record {
  allocators = λ c. record { pool = []; pool_min = 0 };
  block = λ p. none;
  next = 1;
  garbage = λ p i. 0;
}

empty-IsHeap : IsHeap empty_heap
empty-IsHeap = record {
  bound = λ c. omega arith;
  once = λ p. omega arith;
  kept = λ c p l. absurd (omega arith);
  owned = λ p b e. absurd (none-ne-some _ e);
  fresh = λ p l. refl;
}

-- One block, with two references.
abbrev pub shared_block : MemBlock
shared_block = record {
  allocator = mem_1k;
  refcount = pos 2;
  size = 1024;
  nbytes = 16;
  room = 1024;
  bytes = λ i. 0;
}

-- A heap with one block, that no pool holds.
abbrev pub one_block : MemBlock → Heap
one_block b = record empty_heap { block = λ p. if p == 7 then some b else none; next = 8 }

pub one_block-IsHeap : (b : MemBlock) → class_size b.allocator ≤ b.room → IsHeap (one_block b)
one_block-IsHeap b room = record {
  bound = λ c. omega arith;
  once = λ p. omega arith;
  kept = λ c p l. absurd (omega arith);
  owned = λ p b' e. elim (Bool-cases (p == 7)) [
    | inl t ↦
        subst (λ x. class_size x.allocator ≤ x.room)
          (some-injective b b' (ap (λ x. if x then some b else none) (sym t) ∙ e)) room
    | inr f ↦ absurd (none-ne-some b' (ap (λ x. if x then some b else none) (sym f) ∙ e))
  ];
  fresh = λ p l. let f : (p == 7) ≡ false = ground arith in ap (λ x. if x then some b else none) f;
}

abbrev shared_heap : Heap
shared_heap = one_block shared_block

shared-IsHeap : IsHeap shared_heap
shared-IsHeap = one_block-IsHeap shared_block (omega arith)

lev_slab_fill-IsHeap_example : IsHeap (lev_slab_fill empty_heap)
lev_slab_fill-IsHeap_example = lev_slab_fill-IsHeap empty_heap empty-IsHeap

get_block-IsHandedOut_example :
    (r : ℕ × Heap) × (lev_slab_get_block 1500 shared_heap ≡ some r) × IsHandedOut 1500 shared_heap r
get_block-IsHandedOut_example = get_block-IsHandedOut 1500 shared_heap shared-IsHeap (omega arith)

dec_ref_count-Counts_example :
    (h' : Heap) × (lev_slab_dec_ref_count (some 7) 1 shared_heap ≡ some (pos 1, h'))
    × Steps 7 shared_heap h'
    × Counts 7 1 h'
dec_ref_count-Counts_example =
    dec_ref_count-Counts 7 1 1 shared_heap shared-IsHeap (shared_block, refl, refl, refl)

read-Counts_example :
    (mb : ℕ) × (b : MemBlock) × (h' : Heap) × ((on_alloc >>= λ buf.
    write buf.mb buf.base 5 (λ i. i + 65) >> lev_pushbuffer_from_static_mb (pos 5))
        (record { heap = shared_heap; static_mb = none })
      ≡ ok
          (some (record { mb = mb; slice = 0; until = 5 }), record { heap = h'; static_mb = none }))
    × IsHeap h'
    × Counts mb 1 h'
    × (h'.block mb ≡ some b)
    × (b.nbytes ≡ 5)
    × ((i : ℕ) → i < 5 → b.bytes i ≡ i + 65)
read-Counts_example =
    read-Counts shared_heap 5 (λ i. i + 65) shared-IsHeap (omega arith) (omega arith)

failed_read-IsGivenBack_example :
    (mb : ℕ) × (h' : Heap) × ((on_alloc >>= λ buf. lev_pushbuffer_from_static_mb (negsuc 0))
        (record { heap = shared_heap; static_mb = none })
      ≡ ok (none, record { heap = h'; static_mb = none }))
    × IsHeap h'
    × IsGivenBack mb h'
failed_read-IsGivenBack_example = failed_read-IsGivenBack shared_heap shared-IsHeap
