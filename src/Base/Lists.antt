-- ===== src/Base/Lists.antt =====
-- Lists measured and split by native numbers, under the library's names.
use Prim.Native.Nat.{ℕ, zero, suc, ◌+◌, ◌-◌}
use mathlib.Core.Path.{◌≡◌, refl}
use mathlib.Core.Bool.{Bool, true, false}
use mathlib.Core.List.{List, [], ◌∷◌, ◌++◌}
use mathlib.Core.Option.{Option, none, some}
use native.Mathlib.Omega.{arith}

module _ {ℓ} {A : Type ℓ} where
  abbrev pub length : List A → ℕ
  length [] = 0
  length (x ∷ xs) = suc (length xs)

  abbrev pub is_empty : List A → Bool
  is_empty [] = true
  is_empty (x ∷ xs) = false

  abbrev pub take : ℕ → List A → List A
  take zero xs = []
  take (suc n) [] = []
  take (suc n) (x ∷ xs) = x ∷ take n xs

  abbrev pub drop : ℕ → List A → List A
  drop zero xs = xs
  drop (suc n) [] = []
  drop (suc n) (x ∷ xs) = drop n xs

  abbrev pub get_or : List A → ℕ → A → A
  get_or [] i d = d
  get_or (x ∷ xs) zero d = x
  get_or (x ∷ xs) (suc i) d = get_or xs i d

  pub length-append : (xs ys : List A) → length (xs ++ ys) ≡ length xs + length ys
  length-append [] ys = omega arith
  length-append (x ∷ xs) ys = omega (arith, length-append xs ys)

  pub length-drop : (n : ℕ) (xs : List A) → length (drop n xs) ≡ length xs - n
  length-drop zero xs = omega arith
  length-drop (suc n) [] = omega arith
  length-drop (suc n) (x ∷ xs) = omega (arith, length-drop n xs)

  pub drop-append : (xs ys : List A) → drop (length xs) (xs ++ ys) ≡ ys
  drop-append [] ys = refl
  drop-append (x ∷ xs) ys = drop-append xs ys

  -- The first `n` elements and the rest, if there are so many.
  abbrev pub split_at : ℕ → List A → Option (List A × List A)
  split_at zero xs = some ([], xs)
  split_at (suc n) [] = none
  split_at (suc n) (x ∷ xs) = elim (split_at n xs) [ none ↦ none | some (a, b) ↦ some (x ∷ a, b) ]

  pub split_at-append : (xs ys : List A) → split_at (length xs) (xs ++ ys) ≡ some (xs, ys)
  split_at-append [] ys = refl
  split_at-append (x ∷ xs) ys = ground (arith, split_at-append xs ys)

  pub split_at-length :
      (n : ℕ) (xs : List A) (a b : List A)
      → split_at n xs ≡ some (a, b)
      → (length a ≡ n) × (n + length b ≡ length xs)
  split_at-length zero xs a b h = ground arith
  split_at-length (suc n) [] a b h = ground arith
  split_at-length (suc n) (x ∷ xs) a b h = go (split_at n xs) refl h (split_at-length n xs)
    where
      go :
          (o : Option (List A × List A))
          → split_at n xs ≡ o
          → (elim o as (λ _. Option (List A × List A)) [
            | none ↦ none
            | some (u, v) ↦ some (x ∷ u, v)
          ])
            ≡ some (a, b)
          → ((u v : List A)
              → split_at n xs ≡ some (u, v)
              → (length u ≡ n) × (n + length v ≡ length xs))
          → (length a ≡ suc n) × (suc n + length b ≡ suc (length xs))
      go none e p ih = ground arith
      go (some (u, v)) e p ih = ground (arith, ih u v e)
