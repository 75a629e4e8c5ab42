-- ===== src/Examples/Blocks.antt =====
-- Buffers and memory blocks: runs and theorems at concrete inputs.
use lev.Buffer.Slices.{referenced, slice-tostring}
use lev.Buffer.RoundTrip.{stored, uint32be-write_read}
use lev.Buffer.Methods.{buffer_tostring, buffer_slice, memmem}
use lev.Buffer.Search.{Answers, memmem-Answers}
use lev.Buffer.Bytes.{buffer_getoffset, buffer_read_uint32_be, buffer_write_uint32_be, bswap32}
use lev.Buffer.Access.{Holds, getoffset_bounds}
use lev.Base.{ℕ, ◌+◌, ◌-◌, ◌≤◌, ◌≡◌, ◌↔◌, refl, none, some, [], ◌∷◌, arith, if◌then◌else◌, ◌==◌}
use lev.Base.Int.{pos}
use lev.Slab.{MemBlock, mem_1k}
use lev.Buffer.Memory.{World, MemSlice, ok, ◌>>=◌, tabulate}

-- A heap with one block of 1024 zero bytes, of which 16 are in use, at address 7.
abbrev block : MemBlock
block = record {
  allocator = mem_1k;
  refcount = pos 1;
  size = 1024;
  nbytes = 16;
  room = 1024;
  bytes = λ i. 0;
}

abbrev world : World
world = record {
  heap = record {
    allocators = λ c. record { pool = []; pool_min = 4 };
    block = λ p. if p == 7 then some block else none;
    next = 8;
    garbage = λ p i. 0;
  };
  static_mb = none;
}

-- The first eight and the next eight of the used bytes.
abbrev low : MemSlice
low = record { mb = 7; slice = 0; until = 8 }

abbrev high : MemSlice
high = record { mb = 7; slice = 8; until = 8 }

held : (index k : ℕ) → 1 ≤ index → index - 1 + k ≤ 8 → Holds low block index k world
held index k h l = record {
  live = refl;
  inside = omega arith;
  from_first = h;
  to_last = l;
  size_t = omega arith;
}

uint32be-write_read_example :
    (buffer_write_uint32_be low 66051 1 >>= λ _. buffer_read_uint32_be low 1) world
    ≡ ok (66051, stored low block 1 4 (bswap32 66051) world)
uint32be-write_read_example =
    uint32be-write_read low block 1 world 66051 (held 1 4 (omega arith) (omega arith)) (omega arith)

getoffset_bounds_example :
    (buffer_getoffset low 2 5 4 world ≡ ok (0 + (5 - 1), world)) ↔ ((1 ≤ 5) × (5 - 1 + 4 ≤ 8))
getoffset_bounds_example =
    getoffset_bounds low 2 5 4 world (omega arith) (omega arith) (omega arith)

memmem-Answers_example :
    Answers (5 ∷ 6 ∷ 7 ∷ 6 ∷ []) (6 ∷ []) (memmem (5 ∷ 6 ∷ 7 ∷ 6 ∷ []) (6 ∷ []))
memmem-Answers_example = memmem-Answers (5 ∷ 6 ∷ 7 ∷ 6 ∷ []) (6 ∷ []) (omega arith)

slice-tostring_example :
    let l = tabulate 3 (λ k. 0) in
    (buffer_tostring low 2 3 world ≡ ok (l, world))
    × ((buffer_slice low 2 3 >>= λ s. buffer_tostring s 0 0) world
        ≡ ok (l, referenced 7 block world))
slice-tostring_example =
    slice-tostring low block 2 3 world refl (omega arith) (omega arith) (omega arith) (omega arith)
