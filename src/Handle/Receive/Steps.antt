-- ===== src/Handle/Receive/Steps.antt =====
-- The steps of a read, one function of src/lev_new_base.c at a time.
use lev.Slab.Steps.{same_block, set_block-IsHeap, held_below}
use lev.Slab.Sound.{get_block-IsHandedOut}
use lev.Slab.Pools.{IsHeap, shelved}
use lev.Buffer.Slices.{inc_ref_ok}
use lev.Buffer.Access.{==_refl, load_ok}
use lev.Buffer.Slice.{lev_pushbuffer_from_mb, static_for}
use lev.Base.Int.{inc, pos}
use lev.Handle.Receive.{
  lev_pushbuffer_from_static_mb, on_alloc, push_read, keep_static, static_mb_size,
}
use lev.Slab.{MemBlock, Heap, set_block, lev_slab_get_block, lev_slab_inc_ref, class_of, class_size}
use mathlib.Core.Option.{some-injective}
use lev.Base.{ℕ, none, some, ◌≡◌, if◌then◌else◌, ◌==◌, arith, ◌∙◌, ◌≤◌, sym, ap}
use lev.Buffer.Memory.{World, ok, get_static, load, set_static, size_add, store}

-- The block with one more reference, and `n` more bytes in use.
abbrev pub referenced : MemBlock → MemBlock
referenced b = record b { refcount = inc b.refcount }

abbrev pub pushed_heap : ℕ → ℕ → MemBlock → Heap → Heap
pushed_heap mb n b h =
    set_block mb (some (record (referenced b) { nbytes = size_add b.nbytes n }))
      (set_block mb (some (referenced b)) h)

pub push_read_lem :
    (mb n : ℕ) (b : MemBlock) (w : World)
    → w.heap.block mb ≡ some b
    → push_read mb n w
      ≡ ok (
        some (record {
          mb = mb;
          slice = b.nbytes;
          until = if n == 0 then (if b.nbytes == 0 then b.size else b.nbytes) else n;
        }),
        record w { heap = pushed_heap mb n b w.heap },
      )
unfolding push_read lev_pushbuffer_from_mb load store lev_slab_inc_ref
push_read_lem mb n b w e = ground (arith, inc_ref_ok mb b w e, ==_refl mb)

pub push_lem :
    (mb n : ℕ) (b : MemBlock) (w : World)
    → w.static_mb ≡ some mb
    → w.heap.block mb ≡ some b
    → b.size ≡ static_mb_size
    → lev_pushbuffer_from_static_mb (pos n) w ≡ push_read mb n (record w { static_mb = none })
unfolding lev_pushbuffer_from_static_mb keep_static load get_static set_static
push_lem mb n b w s e z = ground (arith, load_ok mb b w e)

pub alloc_lem :
    (h : Heap) (r : ℕ × Heap) (b : MemBlock)
    → lev_slab_get_block static_mb_size h ≡ some r
    → r.1.block r.0 ≡ some b
    → b.size ≡ static_mb_size
    → b.nbytes ≡ 0
    → on_alloc (record { heap = h; static_mb = none })
      ≡ ok (
        record { mb = r.0; base = 0; len = static_mb_size },
        record { heap = r.1; static_mb = some r.0 },
      )
unfolding on_alloc static_for get_static set_static load
alloc_lem h r b g e z n = ground arith

-- A heap after a block that no pool holds was changed.
pub changed-IsHeap :
    (mb : ℕ) (b b' : MemBlock) (h : Heap)
    → IsHeap h
    → shelved mb h ≡ 0
    → h.block mb ≡ some b
    → class_size b'.allocator ≤ b'.room
    → IsHeap (set_block mb (some b') h)
changed-IsHeap mb b b' h k off e room = set_block-IsHeap mb h k off b' (held_below mb b h k e) room

pub pushed_heap-IsHeap :
    (mb n : ℕ) (b : MemBlock) (h : Heap)
    → IsHeap h
    → shelved mb h ≡ 0
    → h.block mb ≡ some b
    → IsHeap (pushed_heap mb n b h)
pushed_heap-IsHeap mb n b h k off e =
    let room = k.owned mb b e in
    let k₁ = changed-IsHeap mb b (referenced b) h k off e room in
    changed-IsHeap mb (referenced b) (record (referenced b) { nbytes = size_add b.nbytes n })
      (set_block mb (some (referenced b)) h) k₁ off (same_block mb mb _ h (==_refl mb)) room

-- A block as `on_alloc` gets it, on a heap in order.
pub record IsReadBlock (h : Heap) : Type 0 where
  pub mb : ℕ
  pub h' : Heap
  pub b : MemBlock
  pub got : lev_slab_get_block static_mb_size h ≡ some (mb, h')
  pub is_heap : IsHeap h'
  pub off : shelved mb h' ≡ 0
  pub holds : h'.block mb ≡ some b
  pub sized : b.size ≡ static_mb_size
  pub room : static_mb_size ≤ b.room
  pub unreferenced : b.refcount ≡ pos 0
  pub unused_yet : b.nbytes ≡ 0

pub read_block : (h : Heap) → IsHeap h → IsReadBlock h
unfolding class_of
read_block h k =
    let ((mb, h'), g, (k', off, (b, e, ge, c, z, room, rc, nb), others)) =
      get_block-IsHandedOut static_mb_size h k (omega arith) in
    let size : b.size ≡ static_mb_size = z ∙ sym (ap class_size (some-injective _ _ c)) in
    record {
      mb = mb;
      h' = h';
      b = b;
      got = g;
      is_heap = k';
      off = off;
      holds = e;
      sized = size;
      room = omega (arith, size);
      unreferenced = rc;
      unused_yet = nb;
    }
