-- ===== src/Handle.antt =====
-- References that keep a handle's Lua object alive: `lev_handle_ref` and `lev_handle_unref` of
-- src/lev_new_base.c, and the timer of src/lev_new_timer.c that calls them.
pub mod Counter
pub mod Client
pub mod Timer
pub mod Receive
use lev.Base.{ℕ, zero, suc, Bool, true, false, Option, none, some, ◌==◌, if◌then◌else◌}
use lev.Base.Int.{ℤ, pos, negsuc, inc, dec}

-- The LEVBASE_REF_FIELDS of a handle, without the Lua state, and `object`, the Lua object that it is.
-- `none` is LUA_NOREF.
pub record LevRef : Type 0 where
  pub object : ℕ
  pub threadref : Option ℕ
  pub ref_count : ℤ
  pub ref : Option ℕ

-- The Lua registry: the object that a reference key holds, and the next key that `luaL_ref` gives.
pub record Registry : Type 0 where
  pub held : ℕ → Option ℕ
  pub next : ℕ

unfoldable pub lua_ref : ℕ → Registry → ℕ × Registry
lua_ref value r =
    (r.next, record { held = λ k. if k == r.next then some value else r.held k; next = suc r.next })

-- LUA_NOREF has no effect.
unfoldable pub lua_unref : Option ℕ → Registry → Registry
lua_unref none r = r
lua_unref (some key) r = record r { held = λ k. if k == key then none else r.held k }

-- `create_obj_init_ref`: no references; `thread` is the coroutine's key, if it was made in one.
unfoldable pub init_ref : ℕ → Option ℕ → LevRef
init_ref object thread = record {
  object = object;
  threadref = thread;
  ref_count = pos 0;
  ref = none;
}

abbrev pub is_zero : ℤ → Bool
is_zero (pos zero) = true
is_zero (pos (suc n)) = false
is_zero (negsuc n) = false

-- `value` is what stands at `index` of the stack.
unfoldable pub lev_handle_ref : LevRef → ℕ → Registry → LevRef × Registry
lev_handle_ref h value r =
    if is_zero h.ref_count
    then (let (key, r') = lua_ref value r in
        (record h { ref = some key; ref_count = inc h.ref_count }, r'))
    else (record h { ref_count = inc h.ref_count }, r)

-- The count after `refCount--`; `none` is the failed assertion.
unfoldable pub drop_count : LevRef → ℤ → Registry → Option (LevRef × Registry)
drop_count h (negsuc n) r = none
drop_count h (pos (suc n)) r = some (record h { ref_count = pos (suc n) }, r)
drop_count h (pos zero) r = some (
  record h { ref_count = pos 0; threadref = none; ref = none },
  lua_unref h.threadref (lua_unref h.ref r),
)

unfoldable pub lev_handle_unref : LevRef → Registry → Option (LevRef × Registry)
lev_handle_unref h r = drop_count h (dec h.ref_count) r

-- What the timer's functions do to the references (1 is the index of the timer itself): `start`
-- takes one each time, `stop` and the call of `close` none, and the close callback gives one back.
unfoldable pub timer_start : LevRef → Registry → LevRef × Registry
timer_start h r = lev_handle_ref h h.object r

unfoldable pub timer_stop : LevRef → Registry → LevRef × Registry
timer_stop h r = (h, r)

unfoldable pub timer_on_close : LevRef → Registry → Option (LevRef × Registry)
timer_on_close h r = lev_handle_unref h r

-- `start` is called n times.
unfoldable pub timer_starts : ℕ → LevRef → Registry → LevRef × Registry
timer_starts zero h r = (h, r)
timer_starts (suc n) h r = let (h', r') = timer_start h r in timer_starts n h' r'
