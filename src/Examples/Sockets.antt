-- ===== src/Examples/Sockets.antt =====
-- TCP, UDP and pipes: the theorems at concrete runs.
use lev.Base.{◌≡◌, refl, some, none, List, [], ◌∷◌, true, false, map, arith, ℕ, suc, zero}
use lev.Base.Int.{pos, negsuc}
use lev.Handle.{Registry, init_ref, lev_handle_unref, drop_count, lev_handle_ref, lua_ref}
use lev.Handle.Client.{run, credits, handle_unref, handle_ref}
use lev.Handle.Counter.{
  Change, take, give, changes, balance, Counted, IsFresh, changes-Counted, init-Tally,
}
use lev.Pipe.{PipeObj, pipe_new, step}
use lev.Pipe.Lifetime.{run-IsCounted_new}
use lev.Udp.{UdpObj, udp_new}
use lev.Udp.Address.{Sockaddr, push_sockaddr, push_sockaddr-signed, signed, signed_port}
use lev.Udp.Lifetime.{run-IsCounted_new_socket}
use lev.Tcp.Socket.{TcpObj, tcp_accept}
use lev.Tcp.Lifetime.{run-IsCounted_accepted}
use lev.Tcp.Request.{
  Connection, Step, write, bottle, after_write, text, steps, opened, tcp_write, add_chunk, wrong,
}
use lev.Tcp.Owns.{IsConnection, steps-IsConnection-opened}
use lev.Pipe as Pipe
use lev.Udp as Udp
use lev.Tcp.Socket as Socket
use lev.Tcp as Tcp

-- An empty registry.
abbrev registry : Registry
registry = record { held = λ k. none; next = 1 }

registry-IsFresh : IsFresh registry
registry-IsFresh k l = refl

-- Two chunks of one request, and its callback.
abbrev chunks : List Step
chunks =
    bottle ∷ write (text (72 ∷ 105 ∷ [])) false ∷ write (text (33 ∷ [])) true ∷ after_write ∷ []

steps-IsConnection-opened_example :
    (c : Connection) × (steps chunks opened ≡ some c) × IsConnection c
steps-IsConnection-opened_example = steps-IsConnection-opened chunks (refl, (refl, tt))

-- Writes that raise an error.
abbrev failed_writes : ℕ → List Step
failed_writes zero = []
failed_writes (suc n) = write wrong false ∷ failed_writes n

-- Seventeen writes of a wrong argument use a place outside of `bufs`.
wrong_writes : steps (failed_writes 17) opened ≡ none
unfolding steps step tcp_write add_chunk lev.Tcp.Request.step
wrong_writes = refl

abbrev two_and_back : List Change
two_and_back = take ∷ take ∷ give ∷ give ∷ []

changes-Counted_example :
    Counted registry (balance two_and_back 0) (changes two_and_back (init_ref 1 none, registry))
changes-Counted_example =
    changes-Counted registry two_and_back 0 (init_ref 1 none, registry) registry-IsFresh
      (init-Tally 1 registry)

-- A server's pipe, and a write on it, up to the close.
abbrev pipe_events : List Pipe.Event
pipe_events =
    Pipe.bind (pos 0)
    ∷ Pipe.listen (pos 0)
    ∷ Pipe.write
    ∷ Pipe.close
    ∷ Pipe.written
    ∷ Pipe.shut
    ∷ Pipe.closed
    ∷ []

run-IsCounted_new_example :
    (self : PipeObj) × (run Pipe.step Pipe.Lifetime.credit pipe_events
        (pipe_new (init_ref 1 none, registry) false)
      ≡ some self)
    × Pipe.Lifetime.IsCounted registry 1 self
unfolding credits Pipe.Lifetime.credit
run-IsCounted_new_example = run-IsCounted_new 1 pipe_events registry false 1 registry-IsFresh refl

-- 192.168.0.1:8125.
abbrev address : Sockaddr
address = record { data0 = 31; data1 = 189; data2 = 192; data3 = 168; data4 = 0; data5 = 1 }

-- A socket that sends and gets a datagram, up to the close.
abbrev udp_events : List Udp.Event
udp_events =
    Udp.bind (pos 0) []
    ∷ Udp.recv_start (pos 0) []
    ∷ Udp.send (pos 0) []
    ∷ Udp.sent
    ∷ Udp.recv (pos 5) [] address
    ∷ Udp.close
    ∷ Udp.closed
    ∷ []

run-IsCounted_new_socket_example :
    (self : UdpObj) × (run Udp.step Udp.Lifetime.credit udp_events
        (udp_new (init_ref 1 none, registry))
      ≡ some self)
    × Udp.Lifetime.IsCounted registry 1 self
unfolding credits Udp.Lifetime.credit
run-IsCounted_new_socket_example =
    run-IsCounted_new_socket 1 udp_events registry 1 registry-IsFresh refl

push_sockaddr-signed_example :
    push_sockaddr address ≡ (map signed (192 ∷ 168 ∷ 0 ∷ 1 ∷ []), signed_port 31 189)
push_sockaddr-signed_example =
    push_sockaddr-signed address (omega arith) (omega arith) (omega arith) (omega arith)
      (omega arith) (omega arith)

push_sockaddr_run : push_sockaddr address ≡ (negsuc 63 ∷ negsuc 87 ∷ pos 0 ∷ pos 1 ∷ [], negsuc 66)
unfolding push_sockaddr lev.Udp.Address.int lev.Udp.Address.unsigned
push_sockaddr_run = refl

-- A connection that is accepted and ends with its peer.
abbrev tcp_events : List Socket.Event
tcp_events =
    Socket.read (pos 3) (pos 9) ∷ Socket.read (negsuc 0) (pos 9) ∷ Socket.shut ∷ Socket.closed ∷ []

run-IsCounted_accepted_example :
    (self : TcpObj) × (run Socket.step Tcp.Lifetime.credit tcp_events
        (tcp_accept (pos 0) (init_ref 1 none, registry)).1
      ≡ some self)
    × Tcp.Lifetime.IsCounted registry 0 self
unfolding credits Tcp.Lifetime.credit
run-IsCounted_accepted_example =
    run-IsCounted_accepted 1 (pos 0) tcp_events registry 0 registry-IsFresh refl

-- A socket that was never connected fails an assertion when it is closed.
closed_unconnected :
    run Socket.step Tcp.Lifetime.credit
      (Socket.close (negsuc 0) ∷ [])
      (tcp_accept (negsuc 0) (init_ref 1 none, registry)).1
    ≡ none
unfolding run Socket.step Socket.tcp_close Socket.close_client Socket.tcp_after_close tcp_accept
    handle_unref lev_handle_unref drop_count init_ref
closed_unconnected = refl

-- So does a pipe that was connected and closed, without a read.
closed_unread :
    run Pipe.step Pipe.Lifetime.credit
      (Pipe.connect ∷ Pipe.connected (pos 0) ∷ Pipe.close ∷ Pipe.shut ∷ Pipe.closed ∷ [])
      (pipe_new (init_ref 1 none, registry) false)
    ≡ none
unfolding run Pipe.step Pipe.pipe_connect Pipe.on_connect handle_unref lev_handle_unref drop_count
    handle_ref lev_handle_ref lua_ref init_ref Pipe.pipe_close Pipe.close_client
    Pipe.pipe_after_shutdown Pipe.pipe_after_close
closed_unread = refl
