-- ===== src/Fs/Delivery.antt =====
-- The calls of the file system that end with FSR__TEARDOWN deliver their results once.
use mathlib.Core.Option.{some-injective}
use lev.Base.{
  ℕ, ◌≡◌, refl, List, [], Option, none, some, Bool, true, false, arith, Bool-cases, inl, ◌∷◌, inr,
}
use lev.Handle.{
  Registry, lev_handle_ref, lev_handle_unref, lua_ref, drop_count, lua_unref, init_ref,
}
use lev.Handle.Counter.{IsFresh}
use lev.Fs.Results.{Req, Value, push_results, failed, errname, push_done}
use lev.Fs.Request.{
  perform, Course, Reply, returned, yielded, Delivered, called, resumed, set_opt_cb, teardown,
  Holder, create_holder, on_fs_callback,
}

-- What Lua is to get, and how.
abbrev pub reply_for : Option ℕ → Bool → List Value → Reply
reply_for coroutine true values = returned []
reply_for (some c) false values = yielded
reply_for none false values = returned values

abbrev pub delivery_for : Option ℕ → Bool → List Value → Option Delivered
delivery_for coroutine true values = some (called values)
delivery_for (some c) false values = some (resumed values)
delivery_for none false values = none

-- Without a callback, what is returned are the results, an error too.
teardown_lem :
    (holder : Holder) (req : Req) (values : List Value)
    → push_results req ≡ some values
    → (cleaned : Bool) × (teardown holder false req ≡ some (returned values, cleaned))
unfolding teardown push_results
teardown_lem holder req values p = elim (Bool-cases (failed req.result)) [
  | inl e ↦
      let same : some (errname req.error ∷ []) ≡ some values = rw (e, push_results) at p in
      (false, rw (e, some-injective _ values same) refl)
  | inr e ↦
      let done : push_done req.result req.done ≡ some values = rw (e, push_results) at p in
      (true, rw (e, done) refl)
]

-- The registry after the callback of libuv has given everything back.
abbrev settled : ℕ → Option ℕ → Registry → Registry
settled object (some coroutine) r =
    let (key, r₁) = lua_ref coroutine r in
    let (ref, r₂) = lua_ref object r₁ in lua_unref (some key) (lua_unref (some ref) r₂)
settled object none r = let (ref, r₁) = lua_ref object r in lua_unref (some ref) r₁

abbrev course_of : ℕ → Option ℕ → Bool → List Value → Registry → Course
course_of object coroutine is_function values r = record {
  reply = reply_for coroutine is_function values;
  delivered = delivery_for coroutine is_function values;
  cleaned = true;
  registry = settled object coroutine r;
}

-- A call that libuv begins, of a function other than `exists` (which has its own end), delivers the
-- results of its request exactly once: to the callback, if there
-- is one, or by resuming the coroutine that it made yield, or as what it returns. The registry then
-- holds what it held before the call. Keys that `luaL_ref` has not given yet held nothing at first.
pub perform-Delivers :
    (object : ℕ) (coroutine : Option ℕ) (is_function : Bool) (begun finished : Req)
    (values : List Value) (r : Registry)
    → failed begun.result ≡ false
    → push_results finished ≡ some values
    → IsFresh r
    → (course : Course) × (perform object coroutine is_function begun finished r ≡ some course)
      × (course.reply ≡ reply_for coroutine is_function values)
      × (course.delivered ≡ delivery_for coroutine is_function values)
      × ((k : ℕ) → course.registry.held k ≡ r.held k)
unfolding perform set_opt_cb create_holder lua_ref lev_handle_ref lev_handle_unref drop_count
    lua_unref init_ref teardown on_fs_callback
perform-Delivers object (some c) true begun finished values r b p f =
    (course_of object (some c) true values r, rw (b, p) refl, refl, refl, λ k. ground (arith, f k))
perform-Delivers object none true begun finished values r b p f =
    (course_of object none true values r, rw (b, p) refl, refl, refl, λ k. ground (arith, f k))
perform-Delivers object (some c) false begun finished values r b p f =
    (course_of object (some c) false values r, rw (b, p) refl, refl, refl, λ k. ground (arith, f k))
perform-Delivers object none false begun finished values r b p f =
    let (cleaned, e) =
      teardown_lem (record { ref = init_ref object none; use_lcb = false }) finished values p in
    (
      record { reply = returned values; delivered = none; cleaned = cleaned; registry = r },
      rw e refl,
      refl,
      refl,
      λ k. refl,
    )
