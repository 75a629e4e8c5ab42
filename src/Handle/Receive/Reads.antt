-- ===== src/Handle/Receive/Reads.antt =====
-- One read: what libuv asks of `on_alloc`, the bytes that it writes, and the slice that is pushed.
use lev.Handle.Receive.Steps.{
  read_block, alloc_lem, pushed_heap, referenced, changed-IsHeap, push_lem, push_read_lem,
  pushed_heap-IsHeap,
}
use lev.Slab.Counting.{Counts, IsGivenBack, inc_ref-Counts, dec_ref_count-Counts}
use lev.Slab.Steps.{same_block}
use lev.Slab.Pools.{IsHeap}
use lev.Buffer.Access.{==_refl, load_ok, write_ok, overwrite_inside}
use lev.Base.Int.{inc, pos, negsuc}
use lev.Handle.Receive.{
  lev_pushbuffer_from_static_mb, on_alloc, keep_static, static_mb_size, dispose,
}
use lev.Slab.{MemBlock, Heap, set_block, lev_slab_inc_ref, lev_slab_dec_ref_count}
use mathlib.Core.Path.{subst}
use lev.Base.{ℕ, none, some, ◌≡◌, refl, arith, ◌<◌, ◌≤◌, ap, ◌+◌}
use lev.Buffer.Memory.{
  World, ok, write, ◌>>=◌, ◌>>◌, get_static, load, set_static, size_add, overwrite,
}

-- When no block waits, `on_alloc`, n bytes that libuv writes where it was told to, and
-- `lev_pushbuffer_from_static_mb(n)`, for 0 < n <= 8192, give a slice of exactly these bytes in a
-- block that has one reference and n used bytes; no block waits then, and the pools are in order.
pub read-Counts :
    (h : Heap) (n : ℕ) (src : ℕ → ℕ)
    → IsHeap h
    → 0 < n
    → n ≤ static_mb_size
    → (mb : ℕ) × (b : MemBlock) × (h' : Heap) × ((on_alloc >>= λ buf.
            write buf.mb buf.base n src >> lev_pushbuffer_from_static_mb (pos n))
          (record { heap = h; static_mb = none })
        ≡ ok (
          some (record { mb = mb; slice = 0; until = n }),
          record { heap = h'; static_mb = none },
        ))
      × IsHeap h'
      × Counts mb 1 h'
      × (h'.block mb ≡ some b)
      × (b.nbytes ≡ n)
      × ((i : ℕ) → i < n → b.bytes i ≡ src i)
read-Counts h n src k pos_n small =
    let r = read_block h k in
    let b₁ : MemBlock = record r.b { bytes = overwrite 0 n src r.b.bytes } in
    let h₁ = set_block r.mb (some b₁) r.h' in
    let b₂ : MemBlock = record (referenced b₁) { nbytes = size_add b₁.nbytes n } in
    let here = same_block r.mb r.mb (some b₁) r.h' (==_refl r.mb) in
    let there =
      same_block r.mb r.mb (some b₂) (set_block r.mb (some (referenced b₁)) h₁) (==_refl r.mb) in
    let k₁ =
      changed-IsHeap r.mb r.b b₁ r.h' r.is_heap r.off r.holds (r.is_heap.owned r.mb r.b r.holds) in
    (
      r.mb,
      b₂,
      pushed_heap r.mb n b₁ h₁,
      ground (
        arith,
        alloc_lem h (r.mb, r.h') r.b r.got r.holds r.sized r.unused_yet,
        write_ok r.mb r.b 0 n src (record { heap = r.h'; static_mb = some r.mb }) r.holds pos_n
            (omega (arith, r.room)),
        push_lem r.mb n b₁ (record { heap = h₁; static_mb = some r.mb }) refl here r.sized,
        push_read_lem r.mb n b₁ (record { heap = h₁; static_mb = none }) here,
        r.unused_yet,
      ),
      pushed_heap-IsHeap r.mb n b₁ h₁ k₁ r.off here,
      (b₂, r.off, there, ap inc r.unreferenced),
      there,
      omega (arith, r.unused_yet),
      λ i l.
          let same : 0 + i ≡ i = omega arith in
          subst (λ j. overwrite 0 n src r.b.bytes j ≡ src i) same
            (overwrite_inside 0 n src r.b.bytes i l),
    )

dispose_lem :
    (mb : ℕ) (b : MemBlock) (w : World) (h₁ h₂ : Heap)
    → w.static_mb ≡ some mb
    → w.heap.block mb ≡ some b
    → b.size ≡ static_mb_size
    → lev_slab_inc_ref mb w.heap ≡ some (pos 1, h₁)
    → lev_slab_dec_ref_count (some mb) 1 h₁ ≡ some (pos 0, h₂)
    → lev_pushbuffer_from_static_mb (negsuc 0) w ≡ ok (none, record { heap = h₂; static_mb = none })
unfolding lev_pushbuffer_from_static_mb keep_static load get_static set_static dispose
dispose_lem mb b w h₁ h₂ s e z i d = ground (arith, load_ok mb b w e)

-- When no block waits, `on_alloc` and then `lev_pushbuffer_from_static_mb(-1)`, after a failed read,
-- push nothing: the block is back on its shelf or freed, no block waits, and the pools are in order.
pub failed_read-IsGivenBack :
    (h : Heap)
    → IsHeap h
    → (mb : ℕ) × (h' : Heap) × ((on_alloc >>= λ buf. lev_pushbuffer_from_static_mb (negsuc 0))
          (record { heap = h; static_mb = none })
        ≡ ok (none, record { heap = h'; static_mb = none }))
      × IsHeap h'
      × IsGivenBack mb h'
failed_read-IsGivenBack h k =
    let r = read_block h k in
    let (h₁, e₁, (k₁, o₁), c₁) =
      inc_ref-Counts r.mb 0 r.h' r.is_heap (r.b, r.off, r.holds, r.unreferenced) in
    let (h₂, e₂, (k₂, o₂), g) = dec_ref_count-Counts r.mb 0 1 h₁ k₁ c₁ in
    (
      r.mb,
      h₂,
      ground (
        arith,
        alloc_lem h (r.mb, r.h') r.b r.got r.holds r.sized r.unused_yet,
        dispose_lem r.mb r.b (record { heap = r.h'; static_mb = some r.mb }) h₁ h₂ refl r.holds
            r.sized e₁ e₂,
      ),
      k₂,
      g,
    )

-- When no block waits, a read of 0 bytes, which is no error, pushes a slice over all 8192 bytes of
-- the block, though none of them was read.
pub empty_read :
    (h : Heap)
    → IsHeap h
    → (mb : ℕ) × (w : World) × ((on_alloc >>= λ buf. lev_pushbuffer_from_static_mb (pos 0))
          (record { heap = h; static_mb = none })
        ≡ ok (some (record { mb = mb; slice = 0; until = static_mb_size }), w))
empty_read h k =
    let r = read_block h k in
    (
      r.mb,
      record { heap = pushed_heap r.mb 0 r.b r.h'; static_mb = none },
      ground (
        arith,
        alloc_lem h (r.mb, r.h') r.b r.got r.holds r.sized r.unused_yet,
        push_lem r.mb 0 r.b (record { heap = r.h'; static_mb = some r.mb }) refl r.holds r.sized,
        push_read_lem r.mb 0 r.b (record { heap = r.h'; static_mb = none }) r.holds,
        r.unused_yet,
        r.sized,
      ),
    )
