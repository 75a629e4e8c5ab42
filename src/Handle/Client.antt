-- ===== src/Handle/Client.antt =====
-- What the handles that call `lev_handle_ref` and `lev_handle_unref` share: events in any order, and a
-- count of the references that are left for closing.
use mathlib.Core.Path.{subst}
use mathlib.Core.Option.{some-injective}
use lev.Base.{
  ℕ, zero, suc, ◌≡◌, refl, Option, none, some, List, [], ◌∷◌, arith, sym, Bool, false, true, ◌≢◌,
}
use lev.Base.Int.{ℤ, pos, negsuc}
use lev.Handle.{LevRef, Registry, lev_handle_ref, lev_handle_unref}
use lev.Handle.Counter.{Tally, IsFresh, ref-Tally, unref-Tally}

-- `LevRefStruct_t` of a handle, and the Lua registry.
abbrev pub Refs : Type 0
Refs = LevRef × Registry

-- The handle itself stands at `index`.
unfoldable pub handle_ref : Refs → Refs
handle_ref (h, r) = lev_handle_ref h h.object r

-- `none` is a failed assertion.
unfoldable pub handle_unref : Refs → Option Refs
handle_unref (h, r) = lev_handle_unref h r

-- What is pushed for a result of libuv: nil for 0, or else the number.
unfoldable pub pushed : ℤ → Option ℤ
pushed (pos zero) = none
pushed (pos (suc n)) = some (pos (suc n))
pushed (negsuc n) = some (negsuc n)

abbrev pub is_minus_one : ℤ → Bool
is_minus_one (pos n) = false
is_minus_one (negsuc zero) = true
is_minus_one (negsuc (suc n)) = false

handle_ref-Tally :
    (r₀ : Registry) (n : ℕ) (x : Refs) → Tally r₀ n x → Tally r₀ (suc n) (handle_ref x)
unfolding handle_ref
handle_ref-Tally r₀ n (h, r) t = ref-Tally r₀ n h r t

pub handle_unref-Tally :
    (r₀ : Registry) (n : ℕ) (x : Refs)
    → IsFresh r₀
    → Tally r₀ (suc n) x
    → (y : Refs) × (handle_unref x ≡ some y) × Tally r₀ n y
unfolding handle_unref
handle_unref-Tally r₀ n (h, r) f t = unref-Tally r₀ n h r f t

-- libuv calls back for a request that it has, and for no other.
abbrev pub answer {ℓ} : {A : Type ℓ} → ℕ → Option A → A → Option A
answer zero r self = some self
answer (suc n) r self = r

-- After a request is called back, what holds of the state holds again, with one fewer reference.
pub answered :
    {S : Type 0} (I : S → Type 0) (r₀ : Registry) (n m count : ℕ) (self : S) (refs : Refs)
    (next : Refs → S) (o : Option S)
    → IsFresh r₀
    → Tally r₀ n refs
    → I self
    → (count ≢ 0 → (n ≡ suc m) × ((x : Refs) → Tally r₀ m x → I (next x)))
    → ((x : Refs) → handle_unref refs ≡ some x → o ≡ some (next x))
    → (s : S) × (answer count o self ≡ some s) × I s
answered I r₀ n m zero self refs next o f t i g h = (self, refl, i)
answered I r₀ n m (suc c) self refs next o f t i g h =
    let (e, g') = g (ground arith) in
    let (x, r, t') = handle_unref-Tally r₀ m refs f (subst (λ j. Tally r₀ j refs) e t) in
    (next x, h x r, g' x t')

pub ref_counted :
    (r₀ : Registry) (n m : ℕ) (x : Refs) → Tally r₀ n x → suc n ≡ m → Tally r₀ m (handle_ref x)
ref_counted r₀ n m x t e = rw (sym e) (handle_ref-Tally r₀ n x t)

pub answered_always :
    {S : Type 0} (I : S → Type 0) (count : ℕ) (self next : S)
    → I self
    → (count ≢ 0 → I next)
    → (s : S) × (answer count (some next) self ≡ some s) × I s
answered_always I zero self next i g = (self, refl, i)
answered_always I (suc c) self next i g = (next, refl, g (ground arith))

-- A chain with a result has a first result.
chain-some :
    {A B : Type 0} (o : Option A) (f : A → Option B) (b : B)
    → (elim o [ none ↦ none | some a ↦ f a ]) ≡ some b
    → (a : A) × (o ≡ some a) × (f a ≡ some b)
chain-some none f b e = absurd (cc)
chain-some (some a) f b e = (a, refl, e)

-- One more or one fewer reference that is left for closing; `none` is that there is none.
abbrev pub spend : ℕ → Option ℕ
spend zero = none
spend (suc k) = some k

module _ {Event State : Type 0} (step : Event → State → Option State)
    (credit : Event → ℕ → Option ℕ) where
  unfoldable pub run : List Event → State → Option State
  run [] s = some s
  run (e ∷ es) s = elim (step e s) [ none ↦ none | some s' ↦ run es s' ]

  unfoldable pub credits : List Event → ℕ → Option ℕ
  credits [] k = some k
  credits (e ∷ es) k = elim (credit e k) [ none ↦ none | some k' ↦ credits es k' ]

  -- What each event keeps, with its credit, a sequence of events keeps.
  pub run-Keeps :
      (I : ℕ → State → Type 0)
      (keeps : (e : Event) (k k' : ℕ) (s : State)
        → I k s
        → credit e k ≡ some k'
        → (s' : State) × (step e s ≡ some s') × I k' s')
      (es : List Event) (k k' : ℕ) (s : State)
      → I k s
      → credits es k ≡ some k'
      → (s' : State) × (run es s ≡ some s') × I k' s'
  unfolding run credits
  run-Keeps I keeps [] k k' s i c = (s, refl, rw (sym (some-injective k k' c)) i)
  run-Keeps I keeps (e ∷ es) k k' s i c =
      let (j, cj, cs) = chain-some (credit e k) (λ j. credits es j) k' c in
      let (s', e', i') = keeps e k j s i cj in rw (e', run) (run-Keeps I keeps es j k' s' i' cs)
