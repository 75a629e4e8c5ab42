-- ===== src/Tcp/Frees.antt =====
-- The memory that `tcp_write` allocates and `tcp_after_write` frees.
use mathlib.Core.Path.{subst}
use lev.Base.{
  ℕ, zero, suc, List, [], ◌∷◌, ◌++◌, Option, none, some, Bool, true, false, ◌≡◌, ◌≤◌, ◌<◌, ◌+◌,
  ◌==◌, inl, inr, arith, refl, sym, ap, ◌∙◌, Bool-cases, if◌then◌else◌, ==_iff,
}
use lev.Slab.Pools.{count}
use lev.Tcp.Request.{
  Memory, Pointer, null, malloced, in_slice, WriteReq, free, free_at, free_down, buffer_max_chunks,
}

-- 1 for an address that is in use.
abbrev pub present {ℓ} : {A : Type ℓ} → Option A → ℕ
present none = 0
present (some x) = 1

abbrev pub alive : ℕ → Memory → ℕ
alive a m = present (m.cell a)

abbrev pub address : Bool → Pointer → List ℕ
address true (malloced a) = a ∷ []
address true null = []
address true (in_slice ms) = []
address false p = []

-- The addresses that are marked in a request below an index.
unfoldable pub owned : ℕ → WriteReq → List ℕ
owned zero r = []
owned (suc n) r = address (r.mask n) (r.bufs n).base ++ owned n r

-- What is marked is in the request and has come from `malloc`.
pub record IsRequest (r : WriteReq) : Type 0 where
  pub few : r.bufcnt ≤ buffer_max_chunks
  pub marked :
      (i : ℕ) → r.mask i ≡ true → (i < r.bufcnt) × ((a : ℕ) × ((r.bufs i).base ≡ malloced a))

pub append_count : (ys xs : List ℕ) → (a : ℕ) → count a ys + count a xs ≡ count a (xs ++ ys)
append_count ys [] = λ a. omega arith
append_count ys (b ∷ xs) = λ a. let ih = append_count ys xs a in omega (arith, ih)

-- Memory after some addresses are freed, each as often as it stands in a list.
abbrev Freed : List ℕ → Memory → Option Memory → Type 0
Freed xs m r =
    (m' : Memory) × (r ≡ some m')
    × (m'.next ≡ m.next)
    × ((a : ℕ) → alive a m' + count a xs ≡ alive a m)

present_lem : {A : Type 0} (o : Option A) → 1 ≤ present o → (x : A) × (o ≡ some x)
present_lem none h = absurd (omega arith)
present_lem (some x) h = (x, refl)

free_lem : (a : ℕ) (m : Memory) → 1 ≤ alive a m → Freed (a ∷ []) m (free (malloced a) m)
unfolding free
free_lem a m h =
    let (s, e) = present_lem (m.cell a) h in
    (
      record m { cell = λ b. if a == b then none else m.cell b },
      rw (e, free) refl,
      refl,
      λ b. elim (Bool-cases (a == b)) [
        | inl t ↦
            let same : a ≡ b = (==_iff a b).0 t in
            rw t (sym (ap present e) ∙ ap (λ x. present (m.cell x)) same)
        | inr f ↦ rw f (omega arith)
      ],
    )

-- What the loop does at an index.
free_at_lem :
    (i : ℕ) (r : WriteReq) (m : Memory)
    → IsRequest r
    → ((a : ℕ) → count a (address (r.mask i) (r.bufs i).base) ≤ alive a m)
    → Freed (address (r.mask i) (r.bufs i).base) m (free_at i r m)
unfolding free_at
free_at_lem i r m k h = elim (Bool-cases (r.mask i)) [
  | inr f ↦ rw f (m, refl, refl, λ a. omega arith)
  | inl t ↦
      let (l, (a, e)) = k.marked i t in
      let one : count a (address (r.mask i) (r.bufs i).base) ≡ 1 = rw (t, e) (ground arith) in
      let held : 1 ≤ alive a m = omega (arith, one, h a) in rw (t, e) (free_lem a m held)
]

-- The loop from an index down.
free_down_lem :
    (n : ℕ) (r : WriteReq) (m : Memory)
    → IsRequest r
    → ((a : ℕ) → count a (owned (suc n) r) ≤ alive a m)
    → Freed (owned (suc n) r) m (free_down n r m)
unfolding free_down owned
free_down_lem zero r m k h =
    let (m', e, n, c) =
      free_at_lem zero r m k
        (λ a. omega (arith, h a, append_count [] (address (r.mask 0) (r.bufs 0).base) a)) in
    (m', e, n, λ a. omega (arith, c a, append_count [] (address (r.mask 0) (r.bufs 0).base) a))
free_down_lem (suc n) r m k h =
    let here = address (r.mask (suc n)) (r.bufs (suc n)).base in
    let (m₁, e₁, n₁, c₁) =
      free_at_lem (suc n) r m k (λ a. omega (arith, h a, append_count (owned (suc n) r) here a)) in
    let (m₂, e₂, n₂, c₂) =
      free_down_lem n r m₁ k
        (λ a. omega (arith, h a, c₁ a, append_count (owned (suc n) r) here a)) in
    (
      m₂,
      rw (e₁, free_down) e₂,
      n₂ ∙ n₁,
      λ a. omega (arith, c₁ a, c₂ a, append_count (owned (suc n) r) here a),
    )

-- The addresses of a request, and of several.
abbrev pub addresses : WriteReq → List ℕ
addresses r = owned r.bufcnt r

abbrev pub all_addresses : List WriteReq → List ℕ
all_addresses [] = []
all_addresses (r ∷ rs) = addresses r ++ all_addresses rs

-- All that `tcp_after_write` frees is marked below `bufcnt`.
pub after_write_lem :
    (r : WriteReq) (m : Memory)
    → IsRequest r
    → ((a : ℕ) → count a (addresses r) ≤ alive a m)
    → Freed (addresses r) m (free_down r.bufcnt r m)
unfolding owned
after_write_lem r m k h =
    let whole : owned (suc r.bufcnt) r ≡ addresses r = elim (Bool-cases (r.mask r.bufcnt)) [
      | inl t ↦ absurd (omega (arith, (k.marked r.bufcnt t).0))
      | inr f ↦ rw f refl
    ] in
    subst (λ xs. Freed xs m (free_down r.bufcnt r m)) whole
      (free_down_lem r.bufcnt r m k (λ a. subst (λ xs. count a xs ≤ alive a m) (sym whole) (h a)))
