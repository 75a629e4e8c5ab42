-- ===== src/Pipe.antt =====
-- Pipes, src/lev_new_pipe.c: what each function does with the references and with libuv.
pub mod Lifetime
use lev.Base.{ℕ, suc, ◌-◌, Option, none, some, Bool, if◌then◌else◌}
use lev.Base.Int.{ℤ}
use lev.Handle.Client.{Refs, handle_ref, handle_unref, pushed, is_minus_one, answer}

-- `pipe_obj`: its references, whether it is for IPC, and how many requests of each kind libuv has and
-- has not called back for.
pub record PipeObj : Type 0 where
  pub refs : Refs
  pub ipc : Bool
  pub connects : ℕ
  pub writes : ℕ
  pub shutdowns : ℕ
  pub closes : ℕ

-- After `pipe_new`.
abbrev pub pipe_new : Refs → Bool → PipeObj
pipe_new refs is_ipc = record {
  refs = refs;
  ipc = is_ipc;
  connects = 0;
  writes = 0;
  shutdowns = 0;
  closes = 0;
}

-- r is libuv's result. What is returned to Lua comes first.
unfoldable pub pipe_bind : ℤ → PipeObj → Option ℤ × PipeObj
pipe_bind r self = (pushed r, record self { refs = handle_ref self.refs })

unfoldable pub pipe_listen : ℤ → PipeObj → Option ℤ × PipeObj
pipe_listen r self = (pushed r, record self { refs = handle_ref self.refs })

unfoldable pub pipe_connect : PipeObj → PipeObj
pipe_connect self = record self { refs = handle_ref self.refs; connects = suc self.connects }

unfoldable pub pipe_read_start : ℤ → PipeObj → Option ℤ × PipeObj
pipe_read_start r self = (pushed r, record self { refs = handle_ref self.refs })

-- `uv_write` and `uv_write2` alike.
unfoldable pub pipe_write : PipeObj → PipeObj
pipe_write self = record self { refs = handle_ref self.refs; writes = suc self.writes }

-- UV_CLOSE_CLIENT.
unfoldable pub close_client : PipeObj → PipeObj
close_client self = record self { refs = handle_ref self.refs; shutdowns = suc self.shutdowns }

unfoldable pub pipe_close : PipeObj → PipeObj
pipe_close self = close_client self

-- What the callback of Lua is called with comes first, beside the object; `none` is that it is not.
unfoldable pub on_read : ℤ → PipeObj → Option ℤ × PipeObj
on_read nread self = if is_minus_one nread then (none, close_client self) else (some nread, self)

-- The callbacks of libuv; `none` is a failed assertion.
unfoldable pub on_connect : ℤ → PipeObj → Option (Option ℤ × PipeObj)
on_connect status self = elim (handle_unref self.refs) [
  | none ↦ none
  | some refs ↦ some (pushed status, record self { refs = refs; connects = self.connects - 1 })
]

unfoldable pub pipe_after_write : PipeObj → Option PipeObj
pipe_after_write self = elim (handle_unref self.refs) [
  | none ↦ none
  | some refs ↦ some (record self { refs = refs; writes = self.writes - 1 })
]

unfoldable pub pipe_after_shutdown : PipeObj → Option PipeObj
pipe_after_shutdown self = elim (handle_unref self.refs) [
  | none ↦ none
  | some refs ↦
      some (record self { refs = refs; shutdowns = self.shutdowns - 1; closes = suc self.closes })
]

unfoldable pub pipe_after_close : PipeObj → Option PipeObj
pipe_after_close self = elim (handle_unref self.refs) [
  | none ↦ none
  | some refs ↦ some (record self { refs = refs; closes = self.closes - 1 })
]

-- What a script and libuv do with a pipe.
pub data Event : Type 0 where
  bind listen read_start : ℤ → Event
  connect write close : Event
  read connected : ℤ → Event
  written shut closed : Event

abbrev pub object : Option (Option ℤ × PipeObj) → Option PipeObj
object none = none
object (some (value, self)) = some self

unfoldable pub step : Event → PipeObj → Option PipeObj
step (bind r) self = some (pipe_bind r self).1
step (listen r) self = some (pipe_listen r self).1
step (read_start r) self = some (pipe_read_start r self).1
step connect self = some (pipe_connect self)
step write self = some (pipe_write self)
step close self = some (pipe_close self)
step (read nread) self = some (on_read nread self).1
step (connected status) self = answer self.connects (object (on_connect status self)) self
step written self = answer self.writes (pipe_after_write self) self
step shut self = answer self.shutdowns (pipe_after_shutdown self) self
step closed self = answer self.closes (pipe_after_close self) self
