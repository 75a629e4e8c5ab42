-- ===== src/Handle/Counter.antt =====
-- `lev_handle_ref` and `lev_handle_unref` as a counter.
use lev.Base.{
  ℕ, zero, suc, ◌≤◌, ◌≡◌, ◌==◌, refl, Option, none, some, arith, List, [], ◌∷◌, if◌then◌else◌,
}
use lev.Base.Int.{pos}
use lev.Handle.{
  LevRef, Registry, init_ref, lev_handle_ref, lev_handle_unref, drop_count, lua_ref, lua_unref,
}

-- A reference that is taken, with the handle's own object at `index`, or given back.
pub data Change : Type 0 where
  take give : Change

unfoldable pub change : Change → LevRef × Registry → Option (LevRef × Registry)
change take (h, r) = some (lev_handle_ref h h.object r)
change give (h, r) = lev_handle_unref h r

unfoldable pub changes : List Change → LevRef × Registry → Option (LevRef × Registry)
changes [] x = some x
changes (c ∷ cs) x = elim (change c x) [ none ↦ none | some x' ↦ changes cs x' ]

-- The counter: `none` is that more is given back than there is.
abbrev pub balance : List Change → ℕ → Option ℕ
balance [] n = some n
balance (take ∷ cs) n = balance cs (suc n)
balance (give ∷ cs) zero = none
balance (give ∷ cs) (suc n) = balance cs n

-- Keys that `luaL_ref` has not given yet hold nothing.
abbrev pub IsFresh : Registry → Type 0
IsFresh r = (k : ℕ) → r.next ≤ k → r.held k ≡ none

-- What the registry holds for a handle beside what it held before: nothing without references, and
-- else the object, under one key.
abbrev pub Holds : Registry → LevRef → Registry → ℕ → Type 0
Holds r₀ h r zero = (h.ref ≡ none) × ((k : ℕ) → r.held k ≡ r₀.held k)
Holds r₀ h r (suc n) =
    (key : ℕ) × (h.ref ≡ some key)
    × (r₀.next ≤ key)
    × ((k : ℕ) → r.held k ≡ (if k == key then some h.object else r₀.held k))

-- A handle made in the main thread, with n references.
abbrev pub Tally : Registry → ℕ → LevRef × Registry → Type 0
Tally r₀ n (h, r) =
    (h.ref_count ≡ pos n) × (h.threadref ≡ none) × (r₀.next ≤ r.next) × Holds r₀ h r n

pub ref-Tally :
    (r₀ : Registry) (n : ℕ) (h : LevRef) (r : Registry)
    → Tally r₀ n (h, r)
    → Tally r₀ (suc n) (lev_handle_ref h h.object r)
unfolding lev_handle_ref lua_ref
ref-Tally r₀ zero h r (c, t, l, (e, same)) =
    rw c (refl, t, omega (arith, l), (r.next, refl, l, λ k. ground (arith, same k)))
ref-Tally r₀ (suc n) h r (c, t, l, (key, e, o, same)) = rw c (refl, t, l, (key, e, o, same))

pub unref-Tally :
    (r₀ : Registry) (n : ℕ) (h : LevRef) (r : Registry)
    → IsFresh r₀
    → Tally r₀ (suc n) (h, r)
    → (x : LevRef × Registry) × (lev_handle_unref h r ≡ some x) × Tally r₀ n x
unfolding lev_handle_unref drop_count lua_unref
unref-Tally r₀ zero h r f (c, t, l, (key, e, o, same)) =
    rw (c, e, t) (_, refl, (refl, refl, l, (refl, λ k. ground (arith, same k, f k))))
unref-Tally r₀ (suc n) h r f (c, t, l, (key, e, o, same)) =
    rw c (_, refl, (refl, t, l, (key, e, o, same)))

unref_none :
    (r₀ : Registry) (h : LevRef) (r : Registry) → Tally r₀ 0 (h, r) → lev_handle_unref h r ≡ none
unfolding lev_handle_unref drop_count
unref_none r₀ h r (c, t, l, e) = rw c refl

-- The outcome of changes: the counter's.
abbrev pub Counted : Registry → Option ℕ → Option (LevRef × Registry) → Type 0
Counted r₀ none r = r ≡ none
Counted r₀ (some n) r = (x : LevRef × Registry) × (r ≡ some x) × Tally r₀ n x

-- From a handle with n references, changes have the counter's outcome: they fail an assertion
-- exactly when the counter goes below 0, and else the registry holds the handle's object, under one
-- key, exactly when the counter is not 0, and holds nothing else that it did not hold before. Keys
-- that `luaL_ref` has not given yet held nothing at first.
pub changes-Counted :
    (r₀ : Registry) (cs : List Change) (n : ℕ) (x : LevRef × Registry)
    → IsFresh r₀
    → Tally r₀ n x
    → Counted r₀ (balance cs n) (changes cs x)
unfolding changes change
changes-Counted r₀ [] n x f k = (x, refl, k)
changes-Counted r₀ (take ∷ cs) n (h, r) f k =
    changes-Counted r₀ cs (suc n) (lev_handle_ref h h.object r) f (ref-Tally r₀ n h r k)
changes-Counted r₀ (give ∷ cs) zero (h, r) f k = rw (unref_none r₀ h r k, changes, change) refl
changes-Counted r₀ (give ∷ cs) (suc n) (h, r) f k =
    let (x, e, k') = unref-Tally r₀ n h r f k in
    rw (e, changes, change) (changes-Counted r₀ cs n x f k')

pub init-Tally : (object : ℕ) (r : Registry) → Tally r 0 (init_ref object none, r)
unfolding init_ref
init-Tally object r = (refl, refl, omega arith, (refl, λ k. refl))
