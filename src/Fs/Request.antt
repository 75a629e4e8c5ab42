-- ===== src/Fs/Request.antt =====
-- A request of src/lev_new_fs.c: in a coroutine, with a callback, or neither; the macros FSR__SETUP,
-- FSR__SET_OPT_CB and FSR__TEARDOWN, and the callbacks of libuv.
use lev.Base.{List, [], ◌∷◌, Option, none, some, Bool, true, false, not, ◌||◌, if◌then◌else◌, ℕ}
use lev.Handle.{LevRef, Registry, init_ref, lua_ref, lev_handle_ref, lev_handle_unref}
use lev.Fs.Results.{Req, Value, push_results, push_exists_results, failed, errname, boolean}

-- `fs_req_holder_t`, beside the request.
pub record Holder : Type 0 where
  pub ref : LevRef
  pub use_lcb : Bool

-- `create_obj_init_ref` of a Lua object: in a coroutine, it takes a key for the coroutine's object.
unfoldable pub create_holder : ℕ → Option ℕ → Registry → LevRef × Registry
create_holder object none r = (init_ref object none, r)
create_holder object (some coroutine) r =
    let (key, r') = lua_ref coroutine r in (init_ref object (some key), r')

abbrev pub has_thread : LevRef → Bool
has_thread h = elim h.threadref [ none ↦ false | some key ↦ true ]

-- FSR__SET_OPT_CB (the holder's object is at index 1): the holder, whether libuv gets a callback,
-- and the registry.
unfoldable pub set_opt_cb : ℕ → Option ℕ → Bool → Registry → Holder × Bool × Registry
set_opt_cb object coroutine is_function r =
    let (h, r₁) = create_holder object coroutine r in
    if is_function || has_thread h
    then (let (h', r₂) = lev_handle_ref h object r₁ in
        (record { ref = h'; use_lcb = is_function }, true, r₂))
    else (record { ref = h; use_lcb = false }, false, r₁)

pub data Reply : Type 0 where
  returned : List Value → Reply
  yielded : Reply

-- Whether the callback of Lua gets the results; else the coroutine does.
abbrev pub by_callback : Holder → Bool
by_callback holder = not (has_thread holder.ref) || holder.use_lcb

-- FSR__TEARDOWN: the reply, and whether the request is cleaned up. `none` is undefined in C.
unfoldable pub teardown : Holder → Bool → Req → Option (Reply × Bool)
teardown holder cb req =
    if failed req.result
    then some (returned (errname req.error ∷ []), false)
    else (if cb
        then (if by_callback holder then some (returned [], false) else some (yielded, false))
        else (elim (push_results req) [ none ↦ none | some values ↦ some (returned values, true) ]))

-- What Lua gets when libuv calls back.
pub data Delivered : Type 0 where
  called resumed : List Value → Delivered

abbrev pub to_lua : Bool → List Value → Delivered
to_lua true values = called values
to_lua false values = resumed values

-- The request is cleaned up, and the reference given back; `none` is also a failed assertion.
unfoldable pub on_fs_callback : Holder → Req → Registry → Option (Delivered × Registry)
on_fs_callback holder req r = elim (push_results req) [
  | none ↦ none
  | some values ↦ elim (lev_handle_unref holder.ref r) [
    | none ↦ none
    | some (h, r') ↦ some (to_lua (by_callback holder) values, r')
  ]
]

-- `fs_exists` ends in its own way: in a coroutine it yields, and else it returns what the request has.
unfoldable pub exists_teardown : Holder → Bool → Req → Reply × Bool
exists_teardown holder cb req =
    if has_thread holder.ref
    then (yielded, false)
    else (returned (boolean (push_exists_results req) ∷ []), not cb)

unfoldable pub on_exists_callback : Holder → Req → Registry → Option (Delivered × Registry)
on_exists_callback holder req r = elim (lev_handle_unref holder.ref r) [
  | none ↦ none
  | some (h, r') ↦
      some (to_lua (not (has_thread holder.ref)) (boolean (push_exists_results req) ∷ []), r')
]

-- What Lua sees of one call, and the registry after it.
pub record Course : Type 0 where
  pub reply : Reply
  pub delivered : Option Delivered
  pub cleaned : Bool
  pub registry : Registry

-- A call, from its beginning to its end. With a callback libuv returns at once, and the request that
-- is then torn down is `begun`; without one it is `finished` by then.
unfoldable pub perform : ℕ → Option ℕ → Bool → Req → Req → Registry → Option Course
perform object coroutine is_function begun finished r =
    let (holder, cb, r₁) = set_opt_cb object coroutine is_function r in
    if cb
    then (elim (teardown holder cb begun) [
      | none ↦ none
      | some (reply, cleaned) ↦ elim (on_fs_callback holder finished r₁) [
        | none ↦ none
        | some (delivered, r₂) ↦
            some
              (record { reply = reply; delivered = some delivered; cleaned = true; registry = r₂ })
      ]
    ])
    else (elim (teardown holder cb finished) [
      | none ↦ none
      | some (reply, cleaned) ↦
          some (record { reply = reply; delivered = none; cleaned = cleaned; registry = r₁ })
    ])
