-- ===== src/Handle/Timer.antt =====
-- The references of a timer, from its starts to its close.
use lev.Handle.{
  LevRef, Registry, timer_on_close, timer_start, timer_starts, init_ref, lev_handle_ref,
  lev_handle_unref, drop_count, lua_ref, lua_unref,
}
use lev.Base.{ℕ, zero, suc, ◌+◌, ◌≡◌, refl, Option, none, some, arith}
use lev.Base.Int.{pos}

-- A handle with references: its key holds the object in the registry.
abbrev pub IsHeld : LevRef → Registry → ℕ → ℕ → Type 0
IsHeld h r key n = (h.ref_count ≡ pos (suc n)) × (h.ref ≡ some key) × (r.held key ≡ some h.object)

again-IsHeld :
    (h : LevRef) (r : Registry) (key n : ℕ)
    → IsHeld h r key n
    → IsHeld (timer_start h r).0 (timer_start h r).1 key (suc n)
unfolding timer_start lev_handle_ref
again-IsHeld h r key n k = ground arith

more_starts-IsHeld :
    (m : ℕ) (h : LevRef) (r : Registry) (key n : ℕ)
    → IsHeld h r key n
    → IsHeld (timer_starts m h r).0 (timer_starts m h r).1 key (m + n)
unfolding timer_starts
more_starts-IsHeld zero h r key n k = ground arith
more_starts-IsHeld (suc m) h r key n k = ground (
  arith,
  more_starts-IsHeld m (timer_start h r).0 (timer_start h r).1 key (suc n)
      (again-IsHeld h r key n k),
)

first-IsHeld :
    (object : ℕ) (thread : Option ℕ) (r : Registry)
    → IsHeld
        (timer_start (init_ref object thread) r).0
        (timer_start (init_ref object thread) r).1
        r.next
        0
unfolding timer_start lev_handle_ref init_ref lua_ref
first-IsHeld object thread r = ground arith

-- A timer that was started n + 1 times has n + 1 references, and its object is held under the key
-- that the first start made.
pub starts-IsHeld :
    (n object : ℕ) (thread : Option ℕ) (r : Registry)
    → IsHeld
        (timer_starts (suc n) (init_ref object thread) r).0
        (timer_starts (suc n) (init_ref object thread) r).1
        r.next
        n
unfolding timer_starts
starts-IsHeld n object thread r = ground (
  arith,
  more_starts-IsHeld n (timer_start (init_ref object thread) r).0
      (timer_start (init_ref object thread) r).1 r.next 0 (first-IsHeld object thread r),
)

close-IsHeld :
    (h : LevRef) (r : Registry) (key n : ℕ)
    → IsHeld h r key (suc n)
    → (h' : LevRef) × (timer_on_close h r ≡ some (h', r)) × IsHeld h' r key n
unfolding timer_on_close lev_handle_unref drop_count
close-IsHeld h r key n k = (record h { ref_count = pos (suc n) }, ground arith, ground arith)

-- For a timer that was started n + 2 times, the close callback takes one reference, and the object
-- stays held with n + 1.
close_after_restart :
    (n object : ℕ) (thread : Option ℕ) (r : Registry)
    → let (h, r') = timer_starts (suc (suc n)) (init_ref object thread) r in
      (h' : LevRef) × (timer_on_close h r' ≡ some (h', r')) × IsHeld h' r' r.next n
close_after_restart n object thread r =
    close-IsHeld _ _ r.next n (starts-IsHeld (suc n) object thread r)

-- A timer that was started once is released by its close.
close_after_start :
    (object : ℕ) (r : Registry)
    → let (h, r') = timer_start (init_ref object none) r in
      (h' : LevRef) × (r'' : Registry) × (timer_on_close h r' ≡ some (h', r''))
      × (h'.ref_count ≡ pos 0)
      × (h'.ref ≡ none)
      × (r''.held r.next ≡ none)
unfolding timer_start timer_on_close lev_handle_ref lev_handle_unref drop_count init_ref lua_ref
    lua_unref
close_after_start object r = (_, _, refl, refl, refl, ground arith)

-- Closing a timer that was never started fails the assertion of `lev_handle_unref`.
close_unstarted :
    (object : ℕ) (thread : Option ℕ) (r : Registry)
    → timer_on_close (init_ref object thread) r ≡ none
unfolding timer_on_close lev_handle_unref drop_count init_ref
close_unstarted object thread r = refl
