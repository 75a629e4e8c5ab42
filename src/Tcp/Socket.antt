-- ===== src/Tcp/Socket.antt =====
-- What the functions of src/lev_new_tcp.c other than those that write do with the references and with
-- libuv.
use lev.Base.{ℕ, zero, suc, ◌-◌, Option, none, some, if◌then◌else◌}
use lev.Base.Int.{ℤ, pos, negsuc}
use lev.Handle.{is_zero}
use lev.Handle.Client.{Refs, handle_ref, handle_unref, pushed, is_minus_one, answer}

-- `tcp_obj`: its references, and how many shutdowns and closes libuv has and has not called back for.
pub record TcpObj : Type 0 where
  pub refs : Refs
  pub shutdowns : ℕ
  pub closes : ℕ

-- After `tcp_new`.
abbrev pub tcp_new : Refs → TcpObj
tcp_new refs = record { refs = refs; shutdowns = 0; closes = 0 }

-- A reference for a result of 0. What is returned to Lua comes first.
abbrev pub held_when_zero : ℤ → TcpObj → Option ℤ × TcpObj
held_when_zero r self =
    (pushed r, if is_zero r then record self { refs = handle_ref self.refs } else self)

-- The new object of a connection that is accepted, with libuv's result r.
unfoldable pub tcp_accept : ℤ → Refs → Option ℤ × TcpObj
tcp_accept r refs = held_when_zero r (tcp_new refs)

unfoldable pub tcp_connect : ℤ → TcpObj → Option ℤ × TcpObj
tcp_connect r self = held_when_zero r self

unfoldable pub tcp_listen : ℤ → TcpObj → Option ℤ × TcpObj
tcp_listen r self = held_when_zero r self

-- `backlog` of `tcp_listen`, from the third argument as a number.
unfoldable pub backlog : ℕ → ℕ
backlog zero = 128
backlog (suc n) = suc n

-- `none` is a failed assertion, here and below. The count of closes is libuv's, in `step`.
unfoldable pub tcp_after_close : TcpObj → Option TcpObj
tcp_after_close self = elim (handle_unref self.refs) [
  | none ↦ none
  | some refs ↦ some (record self { refs = refs })
]

-- UV_CLOSE_CLIENT: a socket without a descriptor has no shutdown.
unfoldable pub close_client : ℤ → TcpObj → Option TcpObj
close_client (pos fd) self = some (record self { shutdowns = suc self.shutdowns })
close_client (negsuc n) self = tcp_after_close self

unfoldable pub tcp_close : ℤ → TcpObj → Option TcpObj
tcp_close fd self = close_client fd self

unfoldable pub tcp_after_shutdown : TcpObj → TcpObj
tcp_after_shutdown self = record self { shutdowns = self.shutdowns - 1; closes = suc self.closes }

-- What the callback of Lua is called with, beside the object.
unfoldable pub on_connect : ℤ → TcpObj → Option (Option ℤ × TcpObj)
on_connect status self =
    if is_zero status then some (none, self) else (elim (handle_unref self.refs) [
      | none ↦ none
      | some refs ↦ some (pushed status, record self { refs = refs })
    ])

-- The same for `on_read`; the first `none` is that there is no call.
unfoldable pub on_read : ℤ → ℤ → TcpObj → Option (Option ℤ × TcpObj)
on_read nread fd self =
    if is_minus_one nread
    then (elim (close_client fd self) [ none ↦ none | some s ↦ some (none, s) ])
    else some (some nread, self)

-- What a script and libuv do with a socket; `close` and `read` have its descriptor too.
pub data Event : Type 0 where
  connect listen close connected : ℤ → Event
  read : ℤ → ℤ → Event
  shut closed : Event

abbrev pub object : Option (Option ℤ × TcpObj) → Option TcpObj
object none = none
object (some (value, self)) = some self

unfoldable pub step : Event → TcpObj → Option TcpObj
step (connect r) self = some (tcp_connect r self).1
step (listen r) self = some (tcp_listen r self).1
step (close fd) self = tcp_close fd self
step (read nread fd) self = object (on_read nread fd self)
step (connected status) self = object (on_connect status self)
step shut self = answer self.shutdowns (some (tcp_after_shutdown self)) self
step closed self =
    answer self.closes (tcp_after_close (record self { closes = self.closes - 1 })) self
