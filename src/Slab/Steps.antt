-- ===== src/Slab/Steps.antt =====
-- The small steps of src/lev_slab.c, on heaps whose pools are in order.
use lev.Base.{
  Option, Bool-cases, ==_iff, false, true, ℕ, zero, suc, ◌+◌, ◌≤◌, ◌<◌, ◌≡◌, refl, sym, ◌∙◌, List,
  ◌∷◌, some, none, length, arith, if◌then◌else◌, ◌==◌, inl, inr, ap, leb,
}
use lev.Base.Int.{pos}
use lev.Slab.{
  Class, mem_1k, mem_8k, mem_16k, mem_64k, mem_1024k, Heap, MemBlock, set_allocator, set_block,
  push_pool, class_size, malloc, raw_block,
}
use mathlib.Core.Option.{some-injective, none-ne-some}
use mathlib.Core.Path.{subst}
use lev.Slab.Pools.{hit, count, shelved, IsHeap, shelved-set, count-shelved, each_pool}

off_shelves :
    (h : Heap) (q : ℕ) → ((cl : Class) → count q (h.allocators cl).pool ≡ 0) → shelved q h ≡ 0
off_shelves h q z = omega (arith, z mem_1k, z mem_8k, z mem_16k, z mem_64k, z mem_1024k)

leb-true : (a b : ℕ) → leb a b ≡ true → a ≤ b
leb-true a b e = ground arith

leb-false : (a b : ℕ) → leb a b ≡ false → b < a
leb-false a b e = ground arith

apart : (p q : ℕ) (h : Heap) → shelved p h ≡ 0 → 0 < shelved q h → (p == q) ≡ false
apart p q h z l = elim (Bool-cases (p == q)) [
  | inl e ↦ absurd (omega (arith, ap (λ x. shelved x h) ((==_iff p q).0 e)))
  | inr e ↦ e
]

pub other_block :
    (p q : ℕ) (b : Option MemBlock) (h : Heap)
    → (p == q) ≡ false
    → (set_block p b h).block q ≡ h.block q
other_block p q b h e = rw e refl

pub same_block :
    (p q : ℕ) (b : Option MemBlock) (h : Heap) → (p == q) ≡ true → (set_block p b h).block q ≡ b
same_block p q b h e = rw e refl

-- A block that is taken off a shelf stands on none.
module _ (cl : Class) (p : ℕ) (ps : List ℕ) (h : Heap) (k : IsHeap h) where
  abbrev pub taken : Heap
  taken = set_allocator cl (record { pool = ps; pool_min = (h.allocators cl).pool_min }) h

  taken_count : (h.allocators cl).pool ≡ p ∷ ps → (q : ℕ) → shelved q taken + hit p q ≡ shelved q h
  taken_count e q =
      let old : count q (h.allocators cl).pool ≡ hit p q + count q ps = ap (count q) e in
      omega (
        arith,
        old,
        shelved-set cl (record { pool = ps; pool_min = (h.allocators cl).pool_min }) h q,
      )

  pub taken_off : (h.allocators cl).pool ≡ p ∷ ps → shelved p taken ≡ 0
  taken_off e = ground (arith, taken_count e p, k.once p)

  pub taken-IsHeap : (h.allocators cl).pool ≡ p ∷ ps → IsHeap taken
  taken-IsHeap e = record {
    bound =
        each_pool (λ c a. length a.pool ≤ a.pool_min) cl _ h
          (omega (arith, ap length e, k.bound cl)) k.bound;
    once = λ q. omega (arith, taken_count e q, k.once q);
    kept =
        each_pool
          (λ c a.
            (q : ℕ)
            → 0 < count q a.pool
            → (b : MemBlock) × (h.block q ≡ some b)
              × (b.refcount ≡ pos 0)
              × (class_size c ≤ b.room))
          cl _ h (λ q l. k.kept cl q (omega (arith, ap (count q) e))) k.kept;
    owned = k.owned;
    fresh = k.fresh;
  }

-- A block on no shelf can change.
module _ (p : ℕ) (h : Heap) (k : IsHeap h) (off : shelved p h ≡ 0) where
  kept_beside :
      (o : Option MemBlock) (cl : Class) (q : ℕ)
      → 0 < count q (h.allocators cl).pool
      → (b : MemBlock) × ((set_block p o h).block q ≡ some b)
        × (b.refcount ≡ pos 0)
        × (class_size cl ≤ b.room)
  kept_beside o cl q l =
      let (b, e, z, r) = k.kept cl q l in
      let ne = apart p q h off (omega (arith, count-shelved cl h q)) in
      (b, other_block p q o h ne ∙ e, z, r)

  pub set_block-IsHeap :
      (b : MemBlock)
      → p < h.next
      → class_size b.allocator ≤ b.room
      → IsHeap (set_block p (some b) h)
  set_block-IsHeap b lt room = record {
    bound = k.bound;
    once = k.once;
    kept = kept_beside (some b);
    owned = λ q b' e. elim (Bool-cases (p == q)) [
      | inl t ↦
          subst (λ x. class_size x.allocator ≤ x.room)
            (some-injective _ _ (sym (same_block p q (some b) h t) ∙ e)) room
      | inr f ↦ k.owned q b' (sym (other_block p q (some b) h f) ∙ e)
    ];
    fresh = λ q l.
        let ne : (p == q) ≡ false = ground arith in other_block p q (some b) h ne ∙ k.fresh q l;
  }

  pub freed-IsHeap : IsHeap (set_block p none h)
  freed-IsHeap = record {
    bound = k.bound;
    once = k.once;
    kept = kept_beside none;
    owned = λ q b' e. elim (Bool-cases (p == q)) [
      | inl t ↦ absurd (none-ne-some _ (sym (same_block p q none h t) ∙ e))
      | inr f ↦ k.owned q b' (sym (other_block p q none h f) ∙ e)
    ];
    fresh = λ q l. elim (Bool-cases (p == q)) [
      | inl t ↦ same_block p q none h t
      | inr f ↦ other_block p q none h f ∙ k.fresh q l
    ];
  }

  pub pushed_count : (cl : Class) (q : ℕ) → shelved q (push_pool cl p h) ≡ shelved q h + hit p q
  pushed_count cl q = omega (
    arith,
    shelved-set cl
        (record { pool = p ∷ (h.allocators cl).pool; pool_min = (h.allocators cl).pool_min }) h q,
  )

  pub pushed-IsHeap :
      (cl : Class) (b : MemBlock)
      → h.block p ≡ some b
      → b.refcount ≡ pos 0
      → class_size cl ≤ b.room
      → length (h.allocators cl).pool < (h.allocators cl).pool_min
      → IsHeap (push_pool cl p h)
  pushed-IsHeap cl b e zero_count room fits = record {
    bound = each_pool (λ c a. length a.pool ≤ a.pool_min) cl _ h (omega arith) k.bound;
    once = λ q. elim (Bool-cases (p == q)) [
      | inl t ↦ omega (
        arith,
        pushed_count cl q,
        ap (λ x. shelved x h) ((==_iff p q).0 t),
        off,
        ap {B = ℕ} (λ x. if x then 1 else 0) t,
      )
      | inr f ↦ omega (arith, pushed_count cl q, k.once q, ap {B = ℕ} (λ x. if x then 1 else 0) f)
    ];
    kept =
        each_pool
          (λ c a.
            (q : ℕ)
            → 0 < count q a.pool
            → (b : MemBlock) × (h.block q ≡ some b)
              × (b.refcount ≡ pos 0)
              × (class_size c ≤ b.room))
          cl _ h
          (λ q l. elim (Bool-cases (p == q)) [
            | inl t ↦ (b, ap h.block (sym ((==_iff p q).0 t)) ∙ e, zero_count, room)
            | inr f ↦ k.kept cl q (omega (arith, ap {B = ℕ} (λ x. if x then 1 else 0) f))
          ])
          k.kept;
    owned = k.owned;
    fresh = k.fresh;
  }

-- `malloc` gives an address that stands on no shelf.
pub fresh_off : (h : Heap) → IsHeap h → shelved h.next h ≡ 0
fresh_off h k = off_shelves h h.next (λ cl. go cl (count h.next (h.allocators cl).pool) refl)
  where
    go : (cl : Class) (n : ℕ) → count h.next (h.allocators cl).pool ≡ n → n ≡ 0
    go cl zero e = refl
    go cl (suc n) e =
        let (b, f, z, r) = k.kept cl h.next (omega (arith, e)) in
        absurd (none-ne-some _ (sym (k.fresh h.next (omega arith)) ∙ f))

pub held_below : (p : ℕ) (b : MemBlock) (h : Heap) → IsHeap h → h.block p ≡ some b → p < h.next
held_below p b h k e = elim (Bool-cases (leb h.next p)) [
  | inl t ↦ absurd (none-ne-some _ (sym (k.fresh p (leb-true h.next p t)) ∙ e))
  | inr f ↦ leb-false h.next p f
]

-- `malloc` with room for the smallest class.
pub malloc-IsHeap : (n : ℕ) (h : Heap) → IsHeap h → 1024 ≤ n → IsHeap (malloc n h).1
unfolding malloc
malloc-IsHeap n h k large =
    let new : MemBlock = raw_block n (h.garbage h.next) in
    record {
      bound = k.bound;
      once = k.once;
      kept = kept_beside h.next h k (fresh_off h k) (some new);
      owned = λ q b' e. elim (Bool-cases (h.next == q)) [
        | inl t ↦
            subst (λ x. class_size x.allocator ≤ x.room)
              (some-injective _ _ (sym (same_block h.next q (some new) h t) ∙ e)) large
        | inr f ↦ k.owned q b' (sym (other_block h.next q (some new) h f) ∙ e)
      ];
      fresh = λ q l.
          let ne : (h.next == q) ≡ false = ground arith in
          other_block h.next q (some new) h ne ∙ k.fresh q (omega arith);
    }
