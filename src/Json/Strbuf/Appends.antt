-- ===== src/Json/Strbuf/Appends.antt =====
-- What `json_next_string_token` writes into its buffer.
use lev.Base.{ℕ, List, some, ◌≡◌, ◌<◌, ◌≤◌, ◌+◌, suc, zero, [], ◌∷◌, refl, arith, ap, length, ◌∙◌}
use lev.Slab.{MemBlock}
use lev.Slab.Pools.{IsHeap, shelved}
use lev.Slab.Steps.{same_block, set_block-IsHeap, held_below}
use lev.Buffer.Memory.{World, MemSlice, ok, write, ◌>>=◌, overwrite, M, ◌>>◌, pure}
use lev.Buffer.Access.{write_ok, ==_refl, after}
use lev.Buffer.Slice.{lev_memslice_ensure_null, lev_memslice_append_char_unsafe}
use lev.Json.Strings.{peek}
use lev.Json.Strbuf.{append_unsafe, fill_tmp}

-- Pools in order stay so, with the block on no shelf; it keeps its room and its references.
abbrev pub Stays : ℕ → MemBlock → World → MemBlock → World → Type 0
Stays mb b w b' w' =
    (IsHeap w.heap → shelved mb w.heap ≡ 0 → IsHeap w'.heap × (shelved mb w'.heap ≡ 0))
    × (b'.room ≡ b.room)
    × (b'.refcount ≡ b.refcount)

byte-Stays :
    (mb at c : ℕ) (b : MemBlock) (w : World)
    → w.heap.block mb ≡ some b
    → Stays mb b w
        (record b { bytes = overwrite at 1 (λ i. c) b.bytes })
        (after mb b at 1 (λ i. c) w)
byte-Stays mb at c b w e = (
  λ k off. (
    set_block-IsHeap mb w.heap k off (record b { bytes = overwrite at 1 (λ i. c) b.bytes })
        (held_below mb b w.heap k e) (k.owned mb b e),
    off,
  ),
  refl,
  refl,
)

Stays-on :
    (mb : ℕ) (b b₁ b₂ : MemBlock) (w w₁ w₂ : World)
    → Stays mb b w b₁ w₁
    → Stays mb b₁ w₁ b₂ w₂
    → Stays mb b w b₂ w₂
Stays-on mb b b₁ b₂ w w₁ w₂ (h₁, r₁, c₁) (h₂, r₂, c₂) =
    (λ k off. let (k', off') = h₁ k off in h₂ k' off', r₂ ∙ r₁, c₂ ∙ c₁)

-- What appending leaves: the bytes stand in the block from `at` on, and those in front of it stay.
abbrev Appended : MemSlice → ℕ → List ℕ → MemBlock → World → Type 0
Appended ms at s b w =
    (b' : MemBlock) × (w' : World) × (append_unsafe ms at s w ≡ ok (at + length s, w'))
    × (w'.heap.block ms.mb ≡ some b')
    × Stays ms.mb b w b' w'
    × ((i : ℕ) → i < at → b'.bytes i ≡ b.bytes i)
    × ((i : ℕ) → i < length s → b'.bytes (at + i) ≡ peek s i)

overwrite_outside :
    (at c : ℕ) (bytes : ℕ → ℕ) (i : ℕ) → i < at → overwrite at 1 (λ j. c) bytes i ≡ bytes i
overwrite_outside at c bytes i l = ground arith

overwrite_at : (at c : ℕ) (bytes : ℕ → ℕ) → overwrite at 1 (λ j. c) bytes at ≡ c
overwrite_at at c bytes = ground arith

then_ok :
    {A B : Type 0} (m : M A) (f : A → M B) (w w' : World) (a : A)
    → m w ≡ ok (a, w')
    → (m >>= f) w ≡ f a w'
then_ok m f w w' a e = rw (e, ◌>>=◌) refl

pub byte_written :
    (ms : MemSlice) (at c : ℕ) (b : MemBlock) (w : World)
    → ms.slice ≡ 0
    → w.heap.block ms.mb ≡ some b
    → at + 1 ≤ b.room
    → write ms.mb (ms.slice + at) 1 (λ i. c) w ≡ ok (tt, after ms.mb b at 1 (λ i. c) w)
byte_written ms at c b w z e room =
    let here : ms.slice + at ≡ at = omega (arith, z) in
    ap (λ k. write ms.mb k 1 (λ i. c) w) here
    ∙ write_ok ms.mb b at 1 (λ i. c) w e (omega arith) room

append_unsafe_lem :
    (ms : MemSlice) (at : ℕ) (s : List ℕ) (b : MemBlock) (w : World)
    → ms.slice ≡ 0
    → w.heap.block ms.mb ≡ some b
    → at + length s ≤ b.room
    → Appended ms at s b w
unfolding append_unsafe lev_memslice_append_char_unsafe
append_unsafe_lem ms at [] b w z e room = (
  b,
  w,
  ap (λ n. ok (n, w)) (omega arith),
  e,
  (λ k off. (k, off), refl, refl),
  λ i l. refl,
  λ i l. absurd (omega arith),
)
append_unsafe_lem ms at (c ∷ s) b w z e room =
    let b₁ : MemBlock = record b { bytes = overwrite at 1 (λ i. c) b.bytes } in
    let (b', w', a, e', r, kept, put) =
      append_unsafe_lem ms (suc at) s b₁ (after ms.mb b at 1 (λ i. c) w) z
        (same_block ms.mb ms.mb (some b₁) w.heap (==_refl ms.mb)) (omega arith) in
    (
      b',
      w',
      then_ok (lev_memslice_append_char_unsafe ms at c) (λ _. append_unsafe ms (suc at) s) w
            (after ms.mb b at 1 (λ i. c) w) tt (byte_written ms at c b w z e (omega arith))
          ∙ (a ∙ ap (λ n. ok (n, w')) (omega arith)),
      e',
      Stays-on ms.mb b b₁ b' w (after ms.mb b at 1 (λ i. c) w) w' (byte-Stays ms.mb at c b w e) r,
      λ i l. kept i (omega arith) ∙ overwrite_outside at c b.bytes i l,
      λ i l.
          elim i as (λ i. i < length (c ∷ s) → b'.bytes (at + i) ≡ peek (c ∷ s) i) [
            | zero ↦
                λ l. ap b'.bytes (omega arith) ∙ (kept at (omega arith) ∙ overwrite_at at c b.bytes)
            | suc j ↦ λ l. ap b'.bytes (omega arith) ∙ put j (omega arith)
          ]
            l,
    )

-- `tmp` with room for the string and the NUL behind it.
pub fill_tmp_lem :
    (ms : MemSlice) (s : List ℕ) (b : MemBlock) (w : World)
    → ms.slice ≡ 0
    → w.heap.block ms.mb ≡ some b
    → length s + 1 ≤ b.room
    → (b' : MemBlock) × (w' : World) × (fill_tmp ms s w ≡ ok (length s, w'))
      × (w'.heap.block ms.mb ≡ some b')
      × Stays ms.mb b w b' w'
      × ((i : ℕ) → i < length s → b'.bytes i ≡ peek s i)
      × (b'.bytes (length s) ≡ 0)
unfolding fill_tmp lev_memslice_ensure_null
fill_tmp_lem ms s b w z e room =
    let (b₁, w₁, a, e₁, r, kept, put) = append_unsafe_lem ms 0 s b w z e (omega arith) in
    let n = length s in
    let b₂ : MemBlock = record b₁ { bytes = overwrite n 1 (λ i. 0) b₁.bytes } in
    (
      b₂,
      after ms.mb b₁ n 1 (λ i. 0) w₁,
      then_ok (append_unsafe ms 0 s) (λ k. lev_memslice_ensure_null ms k >> pure k) w w₁ n
            (a ∙ ap (λ k. ok (k, w₁)) (omega arith))
          ∙ then_ok (lev_memslice_ensure_null ms n) (λ _. pure n) w₁
              (after ms.mb b₁ n 1 (λ i. 0) w₁) tt
              (byte_written ms n 0 b₁ w₁ z e₁ (omega (arith, r.1))),
      same_block ms.mb ms.mb (some b₂) w₁.heap (==_refl ms.mb),
      Stays-on ms.mb b b₁ b₂ w w₁ (after ms.mb b₁ n 1 (λ i. 0) w₁) r
          (byte-Stays ms.mb n 0 b₁ w₁ e₁),
      λ i l. overwrite_outside n 0 b₁.bytes i l ∙ (ap b₁.bytes (omega arith) ∙ put i l),
      overwrite_at n 0 b₁.bytes,
    )
