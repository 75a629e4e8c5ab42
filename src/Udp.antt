-- ===== src/Udp.antt =====
-- UDP sockets, src/lev_new_udp.c: what each function does with the references and with libuv.
pub mod Address
pub mod Lifetime
use lev.Base.{
  ℕ, zero, suc, ◌-◌, Option, none, some, Bool, List, [], ◌∷◌, if◌then◌else◌, ◌++◌, false, true,
}
use lev.Base.Int.{ℤ, pos, negsuc}
use lev.Handle.Client.{Refs, handle_ref, handle_unref, is_minus_one, answer}
use lev.Udp.Address.{Sockaddr, push_sockaddr}

-- `udp_obj`: its references, whether libuv receives for it, and how many sends and closes libuv has and
-- has not called back for.
pub record UdpObj : Type 0 where
  pub refs : Refs
  pub receiving : Bool
  pub sends : ℕ
  pub closes : ℕ

-- After `udp_new`.
abbrev pub udp_new : Refs → UdpObj
udp_new refs = record { refs = refs; receiving = false; sends = 0; closes = 0 }

-- What is pushed for Lua: nil, or the name that `lev_push_uv_errname` gives libuv's last error.
pub data Argument : Type 0 where
  nil buffer : Argument
  errname : List ℕ → Argument
  integer : ℤ → Argument
  host : List ℤ → Argument

-- r is libuv's result and err the name of its last error. What is returned to Lua comes first.
unfoldable pub referenced : ℤ → List ℕ → UdpObj → UdpObj → Argument × UdpObj
referenced r err self next =
    if is_minus_one r
    then (errname err, self)
    else (nil, record next { refs = handle_ref self.refs })

unfoldable pub udp_bind : ℤ → List ℕ → UdpObj → Argument × UdpObj
udp_bind r err self = referenced r err self self

unfoldable pub udp_bind6 : ℤ → List ℕ → UdpObj → Argument × UdpObj
udp_bind6 r err self = referenced r err self self

unfoldable pub udp_send : ℤ → List ℕ → UdpObj → Argument × UdpObj
udp_send r err self = referenced r err self (record self { sends = suc self.sends })

unfoldable pub udp_recv_start : ℤ → List ℕ → UdpObj → Argument × UdpObj
udp_recv_start r err self = referenced r err self (record self { receiving = true })

-- UV_UDP_CLOSE.
unfoldable pub udp_close : UdpObj → UdpObj
udp_close self = record self { receiving = false; closes = suc self.closes }

-- What `push_sockaddr` pushes.
abbrev pub address_values : Sockaddr → List Argument
address_values addr = host (push_sockaddr addr).0 ∷ integer (push_sockaddr addr).1 ∷ []

-- What the functions that set an option hand to libuv: `udp_set_multicast_loop` and the others.
pub data Setting : Type 0 where
  multicast_loop broadcast : Bool → Setting
  multicast_ttl ttl : ℤ → Setting
  membership : Option (List ℕ) → Option (List ℕ) → ℤ → Setting

-- These functions, for libuv's result of a setting.
unfoldable pub udp_set : (Setting → ℤ) → List ℕ → Setting → Argument
udp_set uv err setting = if is_minus_one (uv setting) then errname err else nil

unfoldable pub udp_getsockname : ℤ → List ℕ → Sockaddr → List Argument
udp_getsockname r err name = if is_minus_one r then errname err ∷ [] else nil ∷ address_values name

-- What the callback of Lua is called with, beside the object: nothing for a read of 0, the error for
-- one of -1. Both close the socket; a datagram stops the receiving, until `udp_recv_start` is called
-- again.
unfoldable pub on_recv : ℤ → List ℕ → Sockaddr → UdpObj → Option (List Argument) × UdpObj
on_recv (negsuc zero) err addr self = (some (errname err ∷ []), udp_close self)
on_recv (negsuc (suc n)) err addr self = (none, udp_close self)
on_recv (pos zero) err addr self = (none, udp_close self)
on_recv (pos (suc n)) err addr self = (
  some (nil ∷ address_values addr ++ integer (pos (suc n)) ∷ buffer ∷ []),
  record self { receiving = false },
)

-- The callbacks of libuv; `none` is a failed assertion.
unfoldable pub udp_after_send : UdpObj → Option UdpObj
udp_after_send self = elim (handle_unref self.refs) [
  | none ↦ none
  | some refs ↦ some (record self { refs = refs; sends = self.sends - 1 })
]

unfoldable pub udp_after_close : UdpObj → Option UdpObj
udp_after_close self = elim (handle_unref self.refs) [
  | none ↦ none
  | some refs ↦ some (record self { refs = refs; closes = self.closes - 1 })
]

-- What a script and libuv do with a socket.
pub data Event : Type 0 where
  bind bind6 send recv_start : ℤ → List ℕ → Event
  recv : ℤ → List ℕ → Sockaddr → Event
  close sent closed : Event

unfoldable pub step : Event → UdpObj → Option UdpObj
step (bind r err) self = some (udp_bind r err self).1
step (bind6 r err) self = some (udp_bind6 r err self).1
step (send r err) self = some (udp_send r err self).1
step (recv_start r err) self = some (udp_recv_start r err self).1
step (recv nread err addr) self = some (on_recv nread err addr self).1
step close self = some (udp_close self)
step sent self = answer self.sends (udp_after_send self) self
step closed self = answer self.closes (udp_after_close self) self
