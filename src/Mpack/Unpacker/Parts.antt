-- ===== src/Mpack/Unpacker/Parts.antt =====
-- A round of the unpacker's loop with more bytes behind its input, and data that come in two parts.
use mathlib.Core.Path.{subst}
use mathlib.Core.Option.{none-ne-some, some-injective}
use lev.Base.{
  ℕ, zero, suc, ◌+◌, ◌-◌, ◌≤◌, ◌≡◌, refl, sym, ap, ◌∙◌, Bool, true, false, Option, none, some, List,
  [], ◌∷◌, ◌++◌, ltb, ◌==◌, if◌then◌else◌, length, ◌&&◌, drop, arith, length-append, Bool-cases,
  inl, inr, ◌<◌, not, length-drop,
}
use Prim.Native.Nat.{min}
use lev.Mpack.Unpacker.{
  Unpacker, feed_value, unpacker_progress, progress_top, unpacker_progress_datasize, round_for,
  feed_round, with_rest, container_needs_bytes, StackEntry, is_container,
}

-- Data bytes that come in two parts.
abbrev pub with_sofar : StackEntry → ℕ → StackEntry
with_sofar top n = record top { sofar = top.sofar + n }

top-part :
    (u : Unpacker) (top : StackEntry) (es : List StackEntry) (x : ℕ)
    → top.sofar + x < top.expect
    → progress_top u x (top ∷ es) ≡ some (record u { stack = with_sofar top x ∷ es })
unfolding progress_top
top-part u top es x l =
    let a : ltb (top.expect - top.sofar) x ≡ false = ground arith in
    let b : (top.sofar + x == top.expect) ≡ false = ground arith in rw (a, b) refl

top-parts :
    (u : Unpacker) (top : StackEntry) (es : List StackEntry) (x y : ℕ)
    → top.sofar + x < top.expect
    → progress_top (record u { stack = with_sofar top x ∷ es }) y (with_sofar top x ∷ es)
      ≡ progress_top u (x + y) (top ∷ es)
unfolding progress_top unpacker_progress
top-parts u top es x y l =
    let a : top.sofar + x + y ≡ top.sofar + (x + y) = omega arith in
    let t : ltb (top.expect - (top.sofar + x)) y ≡ ltb (top.expect - top.sofar) (x + y) =
      ground arith in
    rw (a, t) refl

-- What is left of the input, with more behind it.
abbrev pub more_behind : List ℕ → Option (List ℕ × Unpacker) → Option (List ℕ × Unpacker)
more_behind b none = none
more_behind b (some (p, u)) = some (p ++ b, u)

with_rest-append :
    (p b : List ℕ) (o : Option Unpacker) → with_rest (p ++ b) o ≡ more_behind b (with_rest p o)
with_rest-append p b none = refl
with_rest-append p b (some u) = refl

drop-before : (n : ℕ) (p b : List ℕ) → n ≤ length p → drop n (p ++ b) ≡ drop n p ++ b
drop-before zero p b l = refl
drop-before (suc n) [] b l = absurd (omega arith)
drop-before (suc n) (c ∷ p) b l = drop-before n p b (omega arith)

drop-behind : (p b : List ℕ) (m n : ℕ) → m ≡ length p + n → drop m (p ++ b) ≡ drop n b
drop-behind [] b m n e = let e' : m ≡ n = omega arith in rw e' refl
drop-behind (c ∷ p) b zero n e = absurd (omega arith)
drop-behind (c ∷ p) b (suc m) n e = drop-behind p b m n (omega arith)

drop_all : (p : List ℕ) → drop (length p) p ≡ []
drop_all [] = refl
drop_all (c ∷ p) = drop_all p

pub round-append :
    (ch : ℕ) (p b : List ℕ) (u : Unpacker) (need : Option ℕ)
    → ((n : ℕ) → need ≡ some (suc n) → n ≤ length p)
    → round_for ch (p ++ b) u need ≡ more_behind b (round_for ch p u need)
unfolding round_for
round-append ch p b u none h = with_rest-append p b (feed_value u ch)
round-append ch p b u (some zero) h = refl
round-append ch p b u (some (suc n)) h =
    let l : n ≤ length p = h n refl in
    let e : min (suc n) (suc (length (p ++ b))) ≡ suc n = omega (arith, length-append p b) in
    let f : min (suc n) (suc (length p)) ≡ suc n = omega arith in
    rw (e, f, drop-before n p b l) (with_rest-append (drop n p) b _)

-- The top of the stack, when it waits for data.
needs_data :
    (st : List StackEntry) (n : ℕ)
    → container_needs_bytes st ≡ some (suc n)
    → (top : StackEntry) × (es : List StackEntry) × (st ≡ top ∷ es)
      × (top.expect - top.sofar ≡ suc n)
      × ((x : ℕ)
          → top.sofar + x < top.expect
          → container_needs_bytes (with_sofar top x ∷ es) ≡ some (top.expect - (top.sofar + x)))
unfolding container_needs_bytes
needs_data [] n e = absurd (none-ne-some _ e)
needs_data (top ∷ es) n e = elim (Bool-cases (ltb (length top.sizebytes) top.sizesize)) [
  | inl s ↦ let e' : some 0 ≡ some (suc n) = rw s at e in absurd (cc)
  | inr s ↦ elim (Bool-cases (ltb top.sofar top.expect && not (is_container top.t))) [
    | inl d ↦
        let e' : some (top.expect - top.sofar) ≡ some (suc n) = rw (s, d) at e in
        let c : not (is_container top.t) ≡ true = ground arith in
        (
          top,
          es,
          refl,
          some-injective _ _ e',
          λ x l.
              let lt : ltb (top.sofar + x) top.expect ≡ true = ground arith in rw (s, lt, c) refl,
        )
    | inr d ↦ let e' : none ≡ some (suc n) = rw (s, d) at e in absurd (none-ne-some _ e')
  ]
]

either_some :
    (b : Bool) (v w : Unpacker) → (x : Unpacker) × ((if b then some v else some w) ≡ some x)
either_some true v w = (v, refl)
either_some false v w = (w, refl)

top-some :
    (u : Unpacker) (top : StackEntry) (es : List StackEntry) (x : ℕ)
    → x ≤ top.expect - top.sofar
    → (w : Unpacker) × (progress_top u x (top ∷ es) ≡ some w)
unfolding progress_top
top-some u top es x l =
    let a : ltb (top.expect - top.sofar) x ≡ false = ground arith in
    rw a (either_some (top.sofar + x == top.expect) _ _)

-- A round whose data go on behind the first part, and the two rounds that take them apart.
unfoldable pub Splits : ℕ → List ℕ → List ℕ → Unpacker → Type 0
Splits ch p b u =
    (u₁ : Unpacker) × (w : Unpacker) × (r : List ℕ) × (feed_round ch p u ≡ some ([], u₁))
    × (feed_round ch (p ++ b) u ≡ some (r, w))
    × ((c : ℕ) (q : List ℕ) → b ≡ c ∷ q → (feed_round c q u₁ ≡ some (r, w)) × (length r ≤ length q))

Splits-at :
    (ch : ℕ) (p b : List ℕ) (u : Unpacker) (n : ℕ) (top : StackEntry) (es : List StackEntry)
    → container_needs_bytes (top ∷ es) ≡ some (suc n)
    → top.expect - top.sofar ≡ suc n
    → ((x : ℕ)
        → top.sofar + x < top.expect
        → container_needs_bytes (with_sofar top x ∷ es) ≡ some (top.expect - (top.sofar + x)))
    → length p < n
    → Splits ch p b (record u { stack = top ∷ es })
unfolding Splits feed_round round_for unpacker_progress_datasize
Splits-at ch p b u n top es need k next short =
    let l : top.sofar + suc (length p) < top.expect = omega (arith, k, short) in
    let v : Unpacker = record u { stack = top ∷ es } in
    let (w, ew) = top-some v top es (min (suc n) (suc (length (p ++ b)))) (omega (arith, k)) in
    let f : min (suc n) (suc (length p)) ≡ suc (length p) = omega (arith, short) in
    (
      record u { stack = with_sofar top (suc (length p)) ∷ es },
      w,
      drop (min (suc n) (suc (length (p ++ b)))) (ch ∷ p ++ b),
      rw (need, f, top-part v top es (suc (length p)) l, drop_all p) refl,
      rw (need, ew) refl,
      λ c q eb.
          let y : ℕ = min (suc (n - suc (length p))) (suc (length q)) in
          let need' : container_needs_bytes (with_sofar top (suc (length p)) ∷ es)
              ≡ some (suc (n - suc (length p))) =
            next (suc (length p)) l ∙ ap some (omega (arith, k, short)) in
          let both : min (suc n) (suc (length (p ++ b))) ≡ suc (length p) + y =
            omega (arith, length-append p b, ap length eb, short) in
          let t : progress_top (record u { stack = with_sofar top (suc (length p)) ∷ es }) y
                (with_sofar top (suc (length p)) ∷ es)
              ≡ some w =
            top-parts v top es (suc (length p)) y l
            ∙ ap (λ i. progress_top v i (top ∷ es)) (sym both)
            ∙ ew in
          let d : drop (min (suc n) (suc (length (p ++ b)))) (ch ∷ p ++ b) ≡ drop y (c ∷ q) =
            drop-behind (ch ∷ p) b _ y both ∙ ap (drop y) eb in
          (rw (need', t, d) refl, omega (arith, ap length d, length-drop y (c ∷ q))),
    )

pub round-Splits :
    (ch : ℕ) (p b : List ℕ) (u : Unpacker) (n : ℕ)
    → container_needs_bytes u.stack ≡ some (suc n)
    → length p < n
    → Splits ch p b u
round-Splits ch p b u n need short =
    let (top, es, e, k, next) = needs_data u.stack n need in
    let need' : container_needs_bytes (top ∷ es) ≡ some (suc n) = rw e at need in
    subst (λ st. Splits ch p b (record u { stack = st })) (sym e)
      (Splits-at ch p b u n top es need' k next short)
