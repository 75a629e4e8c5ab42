-- ===== src/Buffer/Memory.antt =====
-- The state that the buffer functions work on: the slab heap and the block that small buffers share.
use lev.Base.{
  ℕ, zero, suc, ◌+◌, ◌-◌, ◌%◌, ◌^◌, ◌&&◌, Option, none, some, List, [], ◌∷◌, ltb, leb, ◌==◌,
  if◌then◌else◌,
}
use lev.Slab.{Heap, MemBlock, set_block}

-- `MemSlice`: the block, the offset of `slice` in its bytes, and `until`.
pub record MemSlice : Type 0 where
  pub mb : ℕ
  pub slice : ℕ
  pub until : ℕ

-- The heap and `_static_mb`.
pub record World : Type 0 where
  pub heap : Heap
  pub static_mb : Option ℕ

-- `arg_error n`: `luaL_argerror` on argument n. `fault`: a NULL or freed block is used, or bytes
-- outside a block are.
pub data Result {ℓ} (A : Type ℓ) : Type ℓ where
  ok : A → Result A
  arg_error : ℕ → Result A
  fault : Result A

abbrev pub M : Type 0 → Type 0
M A = World → Result (A × World)

infixl 5 ◌>>=◌ ◌>>◌
abbrev pub ◌>>=◌ : {A B : Type 0} → M A → (A → M B) → M B
◌>>=◌ m f w = elim (m w) [ ok (a, w') ↦ f a w' | arg_error n ↦ arg_error n | fault ↦ fault ]

abbrev pub ◌>>◌ : {B : Type 0} → M (Unit {0}) → M B → M B
m >> k = m >>= λ _. k

abbrev pub pure : {A : Type 0} → A → M A
pure a w = ok (a, w)

abbrev pub argerror : {A : Type 0} → ℕ → M A
argerror n w = arg_error n

-- The heap's functions; `none` is a fault.
abbrev pub on_heap : {A : Type 0} → (Heap → Option (A × Heap)) → M A
on_heap f w = elim (f w.heap) [ none ↦ fault | some (a, h) ↦ ok (a, record w { heap = h }) ]

unfoldable pub load : ℕ → M MemBlock
load p w = elim (w.heap.block p) [ none ↦ fault | some b ↦ ok (b, w) ]

unfoldable pub store : ℕ → MemBlock → M (Unit {0})
store p b w = ok (tt, record w { heap = set_block p (some b) w.heap })

unfoldable pub set_static : Option ℕ → M (Unit {0})
set_static p w = ok (tt, record w { static_mb = p })

unfoldable pub get_static : M (Option ℕ)
get_static w = ok (w.static_mb, w)

-- a - b in `size_t`.
abbrev pub size_sub : ℕ → ℕ → ℕ
size_sub a b = (a + 2 ^ 64 - b) % 2 ^ 64

-- a + b in `size_t`.
abbrev pub size_add : ℕ → ℕ → ℕ
size_add a b = (a + b) % 2 ^ 64

-- The bytes with `n` of them, from `off` on, taken from `src`.
abbrev pub overwrite : ℕ → ℕ → (ℕ → ℕ) → (ℕ → ℕ) → ℕ → ℕ
overwrite off n src bytes i = if leb off i && ltb i (off + n) then src (i - off) else bytes i

-- `memcpy` or `memset` into a block; nothing is touched for 0 bytes.
unfoldable pub write : ℕ → ℕ → ℕ → (ℕ → ℕ) → M (Unit {0})
write p off n src = do
  b ← load p
  if n == 0
      then pure tt
      else if leb (off + n) b.room
      then store p (record b { bytes = overwrite off n src b.bytes })
      else (λ w. fault)

-- The bytes that are read, as a function from their index: `n` of them must lie in the block.
unfoldable pub read : ℕ → ℕ → ℕ → M (ℕ → ℕ)
read p off n = do
  b ← load p
  if n == 0
      then pure (λ i. b.bytes (off + i))
      else if leb (off + n) b.room
      then pure (λ i. b.bytes (off + i))
      else (λ w. fault)

-- The first `n` values of a function.
abbrev pub tabulate : ℕ → (ℕ → ℕ) → List ℕ
tabulate zero f = []
tabulate (suc n) f = f 0 ∷ tabulate n (λ i. f (suc i))
