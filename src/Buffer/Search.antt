-- ===== src/Buffer/Search.antt =====
-- What the first place of a needle is, and `my_memmem` against it.
use lev.Buffer.Methods.{memmem_loop, starts, memmem}
use lev.Base.{
  ℕ, zero, suc, ◌+◌, ◌-◌, ◌<◌, ◌≤◌, ◌≡◌, inl, inr, refl, true, false, Option, none, some, List, [],
  ◌∷◌, ltb, ◌==◌, length, arith, Bool-cases, drop, length-drop,
}

-- `at` is the first place where `s` stands in `l`.
abbrev pub IsFirst : List ℕ → List ℕ → ℕ → Type 0
IsFirst l s at = (starts s (drop at l) ≡ true) × ((j : ℕ) → j < at → starts s (drop j l) ≡ false)

-- `s` stands at none of the first `n` places of `l`.
abbrev pub Absent : List ℕ → List ℕ → ℕ → Type 0
Absent l s n = (j : ℕ) → j < n → starts s (drop j l) ≡ false

drop-drop : (l : List ℕ) (j : ℕ) → drop j (drop 1 l) ≡ drop (suc j) l
drop-drop [] zero = refl
drop-drop [] (suc j) = refl
drop-drop (x ∷ l) j = refl

-- What the loop returns, counting from `at`.
abbrev Located : List ℕ → List ℕ → ℕ → ℕ → Option ℕ → Type 0
Located l s places at none = Absent l s places
Located l s places at (some k) = (i : ℕ) × (k ≡ at + i) × (i < places) × IsFirst l s i

Absent-before :
    (l s : List ℕ) (n : ℕ) → starts s l ≡ false → Absent (drop 1 l) s n → Absent l s (suc n)
Absent-before l s n e h zero lt = e
Absent-before l s n e h (suc j) lt = rw (drop-drop l j) at (h j (omega arith))

-- A place of the tail is the next place of the list.
later :
    (l s : List ℕ) (n at : ℕ) (r : Option ℕ)
    → starts s l ≡ false
    → Located (drop 1 l) s n (at + 1) r
    → Located l s (suc n) at r
later l s n at none e h = Absent-before l s n e h
later l s n at (some k) e (i, p, lt, (here, before)) =
    (suc i, omega arith, omega arith, (rw (drop-drop l i) at here, Absent-before l s i e before))

loop-Located :
    (places : ℕ) (l s : List ℕ) (at : ℕ) → Located l s places at (memmem_loop places l s at)
unfolding memmem_loop
loop-Located zero l s at = λ j h. absurd (omega arith)
loop-Located (suc n) l s at = elim (Bool-cases (starts s l)) [
  | inl here ↦ rw here (0, omega arith, omega arith, (here, λ j h. absurd (omega arith)))
  | inr e ↦ rw e (later l s n at _ e (loop-Located n (drop 1 l) s (at + 1)))
]

starts_short : (s l : List ℕ) → length l < length s → starts s l ≡ false
unfolding starts
starts_short [] l h = absurd (omega arith)
starts_short (c ∷ s) [] h = refl
starts_short (c ∷ s) (d ∷ l) h = ground (arith, starts_short s l)

-- What `memmem` says of a haystack and a needle that is not empty.
abbrev pub Answers : List ℕ → List ℕ → Option ℕ → Type 0
Answers l s none = (j : ℕ) → starts s (drop j l) ≡ false
Answers l s (some at) = (at + length s ≤ length l) × IsFirst l s at

Located-Answers :
    (l s : List ℕ) (r : Option ℕ)
    → 0 < length s
    → length s ≤ length l
    → Located l s (length l - length s + 1) 0 r
    → Answers l s r
Located-Answers l s none z h k = λ j. elim (Bool-cases (ltb j (length l - length s + 1))) [
  | inl a ↦ k j (ground arith)
  | inr a ↦
      let far : length l - length s + 1 ≤ j = ground arith in
      starts_short s (drop j l) (omega (arith, length-drop j l))
]
Located-Answers l s (some at) z h (i, p, lt, (here, before)) =
    let e : i ≡ at = omega arith in (omega arith, (rw e at here, rw e at before))

-- For a needle that is not empty, `memmem` returns the first place where it stands in the haystack,
-- and NULL exactly when it stands at none.
pub memmem-Answers : (l s : List ℕ) → 0 < length s → Answers l s (memmem l s)
unfolding memmem
memmem-Answers l s h =
    let some_needle : (length s == 0) ≡ false = ground arith in
    elim (Bool-cases (ltb (length l) (length s))) [
      | inl short ↦
          let lt : length l < length s = ground arith in
          let nothing : Answers l s none =
            λ j. starts_short s (drop j l) (omega (arith, length-drop j l)) in
          elim (Bool-cases (length l == 0)) [
            | inl a ↦ rw a nothing
            | inr a ↦ rw (a, some_needle, short) nothing
          ]
      | inr long ↦
          let some_hay : (length l == 0) ≡ false = ground arith in
          rw (some_hay, some_needle, long)
            (Located-Answers l s _ h (ground arith) (loop-Located (length l - length s + 1) l s 0))
    ]
