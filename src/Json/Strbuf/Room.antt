-- ===== src/Json/Strbuf/Room.antt =====
-- The room of the buffer that `json_decode` reads strings into.
use mathlib.Core.Option.{some-injective}
use mathlib.Core.Path.{subst}
use lev.Base.{
  ℕ, List, some, ◌≡◌, ◌<◌, ◌≤◌, ◌+◌, ◌*◌, suc, zero, refl, arith, ap, length, sym, ◌∙◌, true,
}
use lev.Base.Int.{pos, inc}
use lev.Slab.{Heap, MemBlock, lev_slab_get_block, class_of, set_block, lev_slab_inc_ref}
use lev.Slab.Pools.{IsHeap}
use lev.Slab.Sound.{get_block-IsHandedOut}
use lev.Slab.Counting.{Counts}
use lev.Slab.Steps.{same_block, set_block-IsHeap, held_below}
use lev.Buffer.Memory.{World, MemSlice, ok, fault, overwrite}
use lev.Buffer.Access.{==_refl}
use lev.Buffer.Slice.{lev_memslice_ensure_null}
use lev.Json.Strings.{peek, JsonParse, json_next_string_token, closed}
use lev.Json.Strings.Bounds.{next_string-TokenFits, TokenFits}
use lev.Json.Strbuf.{
  Strbuf, memslice_wrap_strbuf_init, memslice_wrap_strbuf_new, fill_tmp, lev_slab_inc_ref,
  strbuf_new, strbuf_new_lem,
}
use lev.Json.Strbuf.Appends.{byte_written, fill_tmp_lem}

-- A buffer for a text of n bytes, on the heap of a state.
abbrev pub IsStrbuf : ℕ → Strbuf → World → Type 0
IsStrbuf n s w =
    (ms : MemSlice) × (b : MemBlock) × (s.ms ≡ some ms)
    × IsHeap w.heap
    × Counts ms.mb 1 w.heap
    × (ms.slice ≡ 0)
    × (ms.until ≡ n + 1)
    × (w.heap.block ms.mb ≡ some b)
    × (n + 1 ≤ b.room)

inc_ref_lem :
    (mb : ℕ) (b : MemBlock) (h : Heap)
    → h.block mb ≡ some b
    → lev_slab_inc_ref mb h
      ≡ some (inc b.refcount, set_block mb (some (record b { refcount = inc b.refcount })) h)
unfolding lev_slab_inc_ref
inc_ref_lem mb b h e = rw (e, lev_slab_inc_ref) refl

wrap_new-IsStrbuf :
    (n : ℕ) (w : World)
    → IsHeap w.heap
    → 0 < n
    → n < 1024 * 1024
    → (s : Strbuf) × (w' : World) × (memslice_wrap_strbuf_new (pos n) w ≡ ok (s, w'))
      × IsStrbuf n s w'
unfolding memslice_wrap_strbuf_new memslice_wrap_strbuf_init lev_memslice_ensure_null
wrap_new-IsStrbuf zero w k pos_n small = absurd (omega arith)
wrap_new-IsStrbuf (suc n) w k pos_n small =
    let ((mb, h), got, (k₁, off, (b, holds, sized, cl, same, room, unref, unused), others)) =
      get_block-IsHandedOut (suc n + 1) w.heap k (omega arith) in
    let b₁ : MemBlock = record b { refcount = inc b.refcount } in
    let h₁ = set_block mb (some b₁) h in
    let there₁ = same_block mb mb (some b₁) h (==_refl mb) in
    let k₂ = set_block-IsHeap mb h k₁ off b₁ (held_below mb b h k₁ holds) (k₁.owned mb b holds) in
    let b₂ : MemBlock = record b₁ { bytes = overwrite 0 1 (λ i. 0) b₁.bytes } in
    let h₂ = set_block mb (some b₂) h₁ in
    let there₂ = same_block mb mb (some b₂) h₁ (==_refl mb) in
    let k₃ =
      set_block-IsHeap mb h₁ k₂ off b₂ (held_below mb b₁ h₁ k₂ there₁) (k₁.owned mb b holds) in
    let ms : MemSlice = record { mb = mb; slice = 0; until = suc n + 1 } in
    (
      record { ms = some ms; length = 0; dynamic = true },
      record w { heap = h₂ },
      ground (
        arith,
        got,
        holds,
        inc_ref_lem mb b h holds,
        byte_written ms 0 0 b₁ (record w { heap = h₁ }) refl there₁ (omega (arith, sized, room)),
      ),
      (
        ms,
        b₂,
        refl,
        k₃,
        (b₂, off, there₂, ap inc unref),
        refl,
        refl,
        there₂,
        omega (arith, sized, room),
      ),
    )

-- `strbuf_new(n)` for a text of n bytes, 0 < n < 2^20, gives a buffer over n + 1 bytes of a block
-- that has one reference and room for them, and keeps the pools in order.
strbuf_new-IsStrbuf :
    (n : ℕ) (w : World)
    → IsHeap w.heap
    → 0 < n
    → n < 1024 * 1024
    → (s : Strbuf) × (w' : World) × (strbuf_new n w ≡ ok (s, w')) × IsStrbuf n s w'
strbuf_new-IsStrbuf n w k pos_n small =
    rw (strbuf_new_lem n (omega arith)) (wrap_new-IsStrbuf n w k pos_n small)

-- When `tmp` is a buffer for a text of n bytes, and a string token is read from at most n bytes, then
-- `tmp` takes all bytes of the string and a NUL, inside its block, and stays a buffer for n bytes, with
-- the pools in order.
pub fill_tmp-IsStrbuf :
    (n : ℕ) (buf : Strbuf) (w : World) (json json' : JsonParse) (s : List ℕ)
    → IsStrbuf n buf w
    → 0 < length json.rest
    → length json.rest ≤ n
    → json_next_string_token json ≡ closed s json'
    → (ms : MemSlice) × (b : MemBlock) × (w' : World) × (buf.ms ≡ some ms)
      × (fill_tmp ms s w ≡ ok (length s, w'))
      × IsStrbuf n buf w'
      × (w'.heap.block ms.mb ≡ some b)
      × ((i : ℕ) → i < length s → b.bytes i ≡ peek s i)
      × (b.bytes (length s) ≡ 0)
fill_tmp-IsStrbuf n buf w json json' s (ms, b, is, k, (b₀, off, h₀, r₀), z, u, holds, room) pos_n
      small e =
    let fits : TokenFits 2 json (closed s json') =
      subst (TokenFits 2 json) e (next_string-TokenFits json pos_n) in
    let (b', w', f, holds', (heaps, r, c), bytes, nul) =
      fill_tmp_lem ms s b w z holds (omega (arith, fits)) in
    let (k', off') = heaps k off in
    let same = some-injective _ _ (sym holds ∙ h₀) in
    (
      ms,
      b',
      w',
      is,
      f,
      (
        ms,
        b',
        is,
        k',
        (b', off', holds', c ∙ (ap (λ x. x.refcount) same ∙ r₀)),
        z,
        u,
        holds',
        omega (arith, r, room),
      ),
      holds',
      bytes,
      nul,
    )

-- For an `int` of 2^20 or more there is no block that is large enough, and `memslice_wrap_strbuf_new`
-- uses the NULL that it gets: it faults in every state.
wrap_new-fault : (n : ℕ) (w : World) → 1024 * 1024 ≤ n → memslice_wrap_strbuf_new (pos n) w ≡ fault
unfolding memslice_wrap_strbuf_new memslice_wrap_strbuf_init lev_slab_get_block class_of
wrap_new-fault zero w h = absurd (omega arith)
wrap_new-fault (suc n) w h = ground arith
