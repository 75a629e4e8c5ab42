-- ===== src/Lib.antt =====
-- lev: Lua for event-based IO. The repository is a program in C that runs Lua scripts on an event
-- loop; its own code stands under `src/`. The files of this library model the code that moves
-- bytes and keeps count of them:
--
--   * `Slab` is the slab allocator, `src/lev_slab.c` and `src/lev_slab.h`: `_MemBlock` is
--     `MemBlock`, the six pools are a function from the size class to an allocator, and a block
--     is a key into a heap, so that two slices can name one block. `lev_slab_fill`,
--     `lev_slab_getBlock`, `lev_slab_incRef` and `lev_slab_decRefCount` are the functions with
--     those names in lower case. `Slab.Pools` says what it is for the pools and the blocks to be
--     in order.
--   * `Buffer` is the buffer object, `src/lev_new_buffer.c`. `Buffer.Memory` is the state (the
--     heap, the pools and the block `_static_mb`) and the monad of the code that can raise a Lua
--     error or fail an assertion. `Buffer.Slice` has the `lev_memslice_*` functions and
--     `lev_buffer_new`, `Buffer.Bytes` the macro `_BUFFER_GETOFFSET` and the integer accessors,
--     `Buffer.Methods` the methods on a buffer with `my_memmem`, and `Buffer.Concat` the
--     operators of the metatable.
--   * `Mpack` is the MessagePack codec, `src/lev_mpack.c`. `Mpack.Writer` is the write buffer and
--     the `pack_*` functions, `Mpack.Reader` the `unpack_*` functions behind `unpack`, and
--     `Mpack.Unpacker` the incremental unpacker with its stack. `Mpack.Format` is the MessagePack
--     format on its own, numbers included, written without the code: the theorems on both sides
--     refer to it. A map that is read is the list of the pairs that `lua_rawset` leaves in the
--     table.
--   * `Handle` is the reference count of a libuv handle in `src/lev_new_base.c`, with the timer
--     of `src/lev_new_timer.c` as its client. `Handle.Receive` is the block that a read fills,
--     from `on_alloc` to `lev_pushbuffer_from_static_mb`, on the slab allocator and the slices.
--     The registry holds an object under a key. `Handle.Counter` is the same code as a counter,
--     and `Handle.Client` what the kinds of handle share: events in any order, and the callbacks
--     that answer a request of libuv's.
--   * `Json` is the JSON codec, `src/lev_new_json.c`. `Json.Encode` is `json_encode` with the
--     functions it calls, `Json.Strings` the strings of both directions, `Json.Token` is
--     `json_next_token`, and `Json.Decode` the contexts of arrays and objects up to
--     `json_decode`; the functions keep their names. `Json.Document` has JSON documents on their
--     own, with their Lua value, and `Json.Document.Text` their text, written without the code:
--     the theorems on both sides refer to it. `Json.Config` has the functions that change the
--     settings. `Json.Strbuf` is the buffer that `json_decode` takes from the slab allocator, and
--     what `json_next_string_token` writes there; elsewhere the buffers are lists of bytes, up to
--     the bounds below.
--   * `Http` is the binding of the HTTP parser, `src/lhttp_parser.c`: the calls of Lua's
--     callbacks and `execute`, `finish` and `parseUrl` over a `Library`, the parser itself.
--   * `TimeCache` is `src/time_cache.c`: `cached_time` and the three arrays of strings are
--     functions from the slot, and a pointer into them is the number of its slot.
--   * `Tcp` is `src/lev_new_tcp.c`. `Tcp.Request` is `tcp_write` with its bottled chunks and
--     `tcp_after_write`, on a memory that `malloc` and `free` change; `Tcp.Socket` is what the
--     other functions and callbacks do to the references. `Udp` is `src/lev_new_udp.c`, with
--     `push_sockaddr` in `Udp.Address`, and `Pipe` is `src/lev_new_pipe.c`. The module `Lifetime`
--     of each counts its references.
--   * `Fs` is `src/lev_new_fs.c`. `Fs.Calls` is what each function hands to libuv, with the texts
--     of `Fs.Modes`; `Fs.Request` is the macros that begin and end a request and the callbacks of
--     libuv, and `Fs.Results` what is pushed for Lua. The O_ and S_IF constants are Linux's.
--   * `Dns` is `src/lev_new_dns.c`: what its callbacks push, for what c-ares and libuv have
--     found.
--   * `Base` has the tests, the lemmas on lists and numbers and the byte order that the parts
--     share.
--   * `Examples` applies the theorems at concrete inputs.
--
-- The buffers stand on the slab allocator: every slice holds a reference to a block. The codec
-- reads out of a slice, and the strings that it reads are slices of the same block, or Lua
-- strings where the input was one.
--
-- Numbers are natural numbers with the wrap-around of `uint32_t` and `size_t` written out where
-- the C code relies on it or falls into it; `size_t` has 64 bits, and the machine is
-- little-endian, as `__builtin_bswap32` in the code supposes. The bytes of a block are a function
-- from the offset, and a read or write outside the room of a block, which is undefined in C, is
-- the result `fault`.
--
-- Loops are structural where the C loop counts, and on fuel elsewhere: `unpack` gets one more
-- than the length of the input, since every nested value takes a byte, and the feed loop gets a
-- round for each byte. The JSON decoder has its depth from `decode_max_depth`, and the loops of a
-- string, an array and an object get one more than the length of what is left, since each round
-- takes a byte.
--
-- The octal digits of a mode are on fuel for 22 of them, which 64 bits need at most.
--
-- A block has at most 1 MB. `json_decode` comes to a result for texts of fewer than 2^20 bytes,
-- for which `strbuf_new` has a block, and `json_encode` for texts of n bytes with 6 * n + 64
-- below 2^20, 174,751 bytes at most, since it asks for no more than that at a time; above, the
-- result is `none`, and what the code does without a block is not followed.
--
-- In `unpack`, the data lie at an offset of a block of some size, which the assertion of
-- `mprbuf_mb_init` looks at; an 8-byte load of a number of 4 bytes finds anything behind them.
--
-- In JSON, `snprintf`, `strtod` and `lua_checkstack` are the parameter `Platform`; that `strtod`
-- reads a number back from its text is asked of the numbers of a document. The decimal point of
-- the locale is a dot, and a key above `INT_MAX` that `lua_array_length` converts to an `int` is
-- the result `undefined`.
--
-- The HTTP parser is a submodule and the parameter `Library`; its callbacks into Lua return
-- without an error, and it may read every byte that it is given. The clock of an update of the
-- time cache, with `gmtime`, `localtime` and `timezone`, is what the update is given.
--
-- For TCP, UDP and pipes, libuv is what a step is given: its results, the bytes read and the
-- descriptor of a socket. It calls back for the requests that it has, in any order (writes on a
-- connection in theirs), and for no other. A `char` is signed, and an address comes with six
-- bytes. The object of a request is not counted as memory; the chunks that it points to are. The
-- results of `uv_shutdown` and `uv_write` are not looked at, as in the code. A write of what is
-- neither a string nor a buffer is an error that the script goes on from; `accept` is called with
-- no argument but the socket.
--
-- The arguments of a function of the file system have the types that it checks. A request of the
-- file system that has a callback is seen twice, when it has begun and when libuv is done with
-- it. In DNS, `inet_ntop`, the names of errors and what c-ares has parsed are what a callback is
-- given. Which Lua function a name of a callback stands for is not modelled.
--
-- What is outside: the conversions between a C double and its bytes, which are the parameter
-- `Conversions` with the round trip as a hypothesis where it is used; `malloc` always succeeds;
-- the order in which Lua's `next` gives the pairs of a table is the order of the list of pairs.
-- The other wrappers around libuv, c-ares, OpenSSL and SQLite, the process start and the Lua
-- scripts do I/O and are not modelled.
pub mod Base
pub mod Slab
pub mod Buffer
pub mod Mpack
pub mod Http
pub mod Json
pub mod Handle
mod Examples
pub mod Pipe
pub mod Udp
pub mod Fs
pub mod Dns
pub mod Tcp
pub mod TimeCache
