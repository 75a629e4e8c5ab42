-- ===== src/Buffer/Slices.antt =====
-- Slices of slices, the union of two slices, and growing a slice in place.
use lev.Buffer.Access.{read_ok, ==_refl}
use lev.Buffer.Concat.{buffer__concat, operand, concat_operands, union, back_to_back}
use lev.Buffer.Slice.{
  lev_memslice_resize, lev_pushbuffer_from_mb, lev_memslice_empty_length, fits_in_place,
  grow_in_place,
}
use lev.Buffer.Methods.{buffer_slice, buffer_tostring, buffer}
use lev.Buffer.Memory.{MemSlice, World, load, ok, on_heap, tabulate, ◌>>=◌, store}
use lev.Base.{ℕ, ◌+◌, ◌-◌, ◌^◌, ◌<◌, ◌≤◌, ◌≡◌, ◌⊎◌, some, ltb, if◌then◌else◌, arith}
use native.Mathlib.Nat.{add-zero}
use lev.Base.Int.{inc}
use lev.Slab.{MemBlock, set_block, lev_slab_inc_ref}

-- The world with one more reference to a block.
abbrev pub referenced : ℕ → MemBlock → World → World
referenced p b w = record w {
  heap = set_block p (some (record b { refcount = inc b.refcount })) w.heap;
}

pub inc_ref_ok :
    (p : ℕ) (b : MemBlock) (w : World)
    → w.heap.block p ≡ some b
    → on_heap (lev_slab_inc_ref p) w ≡ ok (inc b.refcount, referenced p b w)
unfolding lev_slab_inc_ref
inc_ref_ok p b w e = rw (e, on_heap, lev_slab_inc_ref)

tostring_ok :
    (ms : MemSlice) (b : MemBlock) (i j : ℕ) (w : World)
    → w.heap.block ms.mb ≡ some b
    → ms.slice + ms.until ≤ b.room
    → 0 < i
    → 0 < j
    → i - 1 + j ≤ ms.until
    → buffer_tostring ms i j w ≡ ok (tabulate j (λ k. b.bytes (ms.slice + (i - 1) + k)), w)
unfolding buffer_tostring
tostring_ok ms b i j w live inside hi hj h =
    ground (arith, read_ok ms.mb b (ms.slice + (i - 1)) j w live (omega arith))

slice_ok :
    (ms : MemSlice) (b : MemBlock) (i j : ℕ) (w : World)
    → w.heap.block ms.mb ≡ some b
    → 0 < i
    → 0 < j
    → i - 1 + j ≤ ms.until
    → buffer_slice ms i j w
      ≡ ok (record { mb = ms.mb; slice = ms.slice + (i - 1); until = j }, referenced ms.mb b w)
unfolding buffer_slice
slice_ok ms b i j w live hi hj h = ground (arith, inc_ref_ok ms.mb b w live)

module _ (ms : MemSlice) (b : MemBlock) (w : World) (live : w.heap.block ms.mb ≡ some b)
    (inside : ms.slice + ms.until ≤ b.room) (h : 0 < ms.until) where
  from_offset_zero :
      buffer_tostring ms 0 0 w ≡ ok (tabulate ms.until (λ k. b.bytes (ms.slice + 0 + k)), w)
  unfolding buffer_tostring
  from_offset_zero = ground (arith, read_ok ms.mb b (ms.slice + 0) ms.until w live (omega arith))

  -- The whole of a slice, as a string.
  whole_tostring :
      buffer_tostring ms 0 0 w ≡ ok (tabulate ms.until (λ k. b.bytes (ms.slice + k)), w)
  whole_tostring = rw (add-zero ms.slice) at from_offset_zero

-- `toString(i, j)` gives the `j` bytes of the block from the `i`-th of the slice on, and so does
-- `slice(i, j)` and then `toString()`, for a part of a slice that lies in its block, with positive
-- `i` and `j`. `slice` takes one more reference.
pub slice-tostring :
    (ms : MemSlice) (b : MemBlock) (i j : ℕ) (w : World)
    → w.heap.block ms.mb ≡ some b
    → ms.slice + ms.until ≤ b.room
    → 0 < i
    → 0 < j
    → i - 1 + j ≤ ms.until
    → let l = tabulate j (λ k. b.bytes (ms.slice + (i - 1) + k)) in
      (buffer_tostring ms i j w ≡ ok (l, w))
      × ((buffer_slice ms i j >>= λ s. buffer_tostring s 0 0) w ≡ ok (l, referenced ms.mb b w))
slice-tostring ms b i j w live inside hi hj h = (
  tostring_ok ms b i j w live inside hi hj h,
  rw (slice_ok ms b i j w live hi hj h, ◌>>=◌)
      (whole_tostring (record { mb = ms.mb; slice = ms.slice + (i - 1); until = j })
        (record b { refcount = inc b.refcount }) (referenced ms.mb b w) (rw (==_refl ms.mb))
        (omega arith) hj),
)

push_ok :
    (p : ℕ) (b : MemBlock) (until off : ℕ) (w : World)
    → w.heap.block p ≡ some b
    → 0 < until
    → lev_pushbuffer_from_mb p until (some off) w
      ≡ ok (record { mb = p; slice = off; until = until }, referenced p b w)
unfolding lev_pushbuffer_from_mb load
push_ok p b until off w live h = ground (arith, inc_ref_ok p b w live, ==_refl p)

-- `..` of two slices of a block that stand back to back returns one slice over both, from the lower
-- address on: it holds the first operand's bytes first only if the first operand stands first.
pub concat-adjacent :
    (a c : MemSlice) (b : MemBlock) (w : World)
    → w.heap.block a.mb ≡ some b
    → a.mb ≡ c.mb
    → 0 < a.until
    → 0 < c.until
    → (a.slice + a.until ≡ c.slice) ⊎ (c.slice + c.until ≡ a.slice)
    → buffer__concat (buffer a) (buffer c) w
      ≡ ok (
        record {
          mb = a.mb;
          slice = if ltb c.slice a.slice then c.slice else a.slice;
          until = a.until + c.until;
        },
        referenced a.mb b w,
      )
unfolding buffer__concat operand concat_operands union back_to_back
concat-adjacent a c b w live same ha hc adjacent = ground (
  arith,
  push_ok a.mb b (a.until + c.until) (if ltb c.slice a.slice then c.slice else a.slice) w live
      (omega arith),
)

-- A slice at the end of the used part of its block that grows in place to `size + 1` bytes has its
-- own old length counted twice in `nbytes`: the used part ends `until` bytes behind the slice.
pub resize-in_place :
    (ms : MemSlice) (b : MemBlock) (size : ℕ) (w : World)
    → w.heap.block ms.mb ≡ some b
    → ms.slice + ms.until ≡ b.nbytes
    → 0 < ms.until
    → ms.until ≤ size
    → b.nbytes ≤ b.size
    → b.size < 2 ^ 32
    → size + 1 ≤ ms.until + (b.size - b.nbytes)
    → lev_memslice_resize ms size w
      ≡ ok (
        record ms { until = size + 1 },
        record w {
          heap =
              set_block ms.mb
                (some (record b { nbytes = ms.slice + (size + 1) + ms.until }))
                w.heap;
        },
      )
unfolding lev_memslice_resize lev_memslice_empty_length fits_in_place grow_in_place load store
resize-in_place ms b size w live last pos_until grows used small room = ground arith
