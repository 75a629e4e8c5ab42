-- ===== src/Tcp/Request.antt =====
-- Writing to a connection: `tcp_write` and `tcp_after_write` of src/lev_new_tcp.c.
use lev.Base.{
  ℕ, zero, suc, List, [], ◌∷◌, ◌++◌, Option, none, some, Bool, true, false, not, ◌==◌, ◌||◌, ltb,
  if◌then◌else◌, length,
}
use lev.Buffer.Memory.{MemSlice}

-- What `malloc` has given: the bytes at an address that is in use, and the next address.
pub record Memory : Type 0 where
  pub cell : ℕ → Option (List ℕ)
  pub next : ℕ

-- `malloc` of as many bytes as are then copied there; it does not fail.
unfoldable pub malloc_copy : List ℕ → Memory → ℕ × Memory
malloc_copy chunk m =
    (m.next, record { cell = λ a. if m.next == a then some chunk else m.cell a; next = suc m.next })

-- A pointer: NULL, one that `malloc` gave, or the first byte of a slice.
pub data Pointer : Type 0 where
  null : Pointer
  malloced : ℕ → Pointer
  in_slice : MemSlice → Pointer

-- `none` is undefined in C: memory that is not in use, or that `malloc` did not give.
unfoldable pub free : Pointer → Memory → Option Memory
free null m = some m
free (malloced a) m = elim (m.cell a) [
  | none ↦ none
  | some bytes ↦ some (record m { cell = λ b. if a == b then none else m.cell b })
]
free (in_slice ms) m = none

-- `uv_buf_t`.
pub record UvBuf : Type 0 where
  pub base : Pointer
  pub len : ℕ

abbrev pub buffer_max_chunks : ℕ
buffer_max_chunks = 16

-- `write_req_t`, with `mask` by its bits.
pub record WriteReq : Type 0 where
  pub bufs : ℕ → UvBuf
  pub bufcnt : ℕ
  pub mask : ℕ → Bool

-- After `memset`.
abbrev pub empty_req : WriteReq
empty_req = record { bufs = λ i. record { base = null; len = 0 }; bufcnt = 0; mask = λ i. false }

-- The argument of `write`: a string (or a number), a buffer, or what `lev_buffer_to_uv` raises an error
-- for.
pub data Chunk : Type 0 where
  text : List ℕ → Chunk
  buffer : MemSlice → Chunk
  wrong : Chunk

abbrev pub put {ℓ} : {A : Type ℓ} → ℕ → A → (ℕ → A) → ℕ → A
put i a f j = if j == i then a else f j

-- The request with one more buffer; `none` is a place outside of `bufs`. The count goes up before the
-- place is filled, so that an error leaves it one higher.
unfoldable pub add_chunk : Chunk → WriteReq → Memory → Option (WriteReq × Memory)
add_chunk chunk wreq m =
    if ltb wreq.bufcnt buffer_max_chunks
    then (elim chunk [
      | text s ↦
          let (tmp, m') = malloc_copy s m in
          some (
            record {
              bufs = put wreq.bufcnt (record { base = malloced tmp; len = length s }) wreq.bufs;
              bufcnt = suc wreq.bufcnt;
              mask = put wreq.bufcnt true wreq.mask;
            },
            m',
          )
      | buffer ms ↦ some (
        record {
          bufs = put wreq.bufcnt (record { base = in_slice ms; len = ms.until }) wreq.bufs;
          bufcnt = suc wreq.bufcnt;
          mask = put wreq.bufcnt false wreq.mask;
        },
        m,
      )
      | wrong ↦
          some (record wreq { bufcnt = suc wreq.bufcnt; mask = put wreq.bufcnt false wreq.mask }, m)
    ])
    else none

abbrev pub raises : Chunk → Bool
raises (text s) = false
raises (buffer ms) = false
raises wrong = true

-- The parts of a `tcp_obj` that writing uses.
pub record Writer : Type 0 where
  pub bottle_mode : Bool
  pub wreq : Option WriteReq

-- A connection with its memory, and the requests that `uv_write` has and has not called back for.
pub record Connection : Type 0 where
  pub writer : Writer
  pub memory : Memory
  pub in_flight : List WriteReq

abbrev pub current : Option WriteReq → WriteReq
current none = empty_req
current (some wreq) = wreq

-- The end of `tcp_write`: the request goes to `uv_write`, unless more is to come.
abbrev pub flush : Connection → Bool → WriteReq → Memory → Connection
flush c bottled wreq m =
    if not bottled || wreq.bufcnt == buffer_max_chunks
    then record {
      writer = record { bottle_mode = bottled; wreq = none };
      memory = m;
      in_flight = c.in_flight ++ wreq ∷ [];
    }
    else record c { writer = record { bottle_mode = bottled; wreq = some wreq }; memory = m }

-- `unbottle` is whether the third argument is a number. A wrong argument raises an error there: the
-- request stays, with its count, and nothing more is done.
unfoldable pub tcp_write : Chunk → Bool → Connection → Option Connection
tcp_write chunk unbottle c = elim (add_chunk chunk (current c.writer.wreq) c.memory) [
  | none ↦ none
  | some (wreq, m) ↦
      if raises chunk
      then some (record c { writer = record c.writer { wreq = some wreq } })
      else some (flush c (if unbottle then false else c.writer.bottle_mode) wreq m)
]

unfoldable pub tcp_bottle : Connection → Connection
tcp_bottle c = record c { writer = record c.writer { bottle_mode = true } }

-- The `if` in the loop of `tcp_after_write`.
unfoldable pub free_at : ℕ → WriteReq → Memory → Option Memory
free_at i wr m = if wr.mask i then free (wr.bufs i).base m else some m

-- The loop, from an index down to 0.
unfoldable pub free_down : ℕ → WriteReq → Memory → Option Memory
free_down zero wr m = free_at zero wr m
free_down (suc i) wr m = elim (free_at (suc i) wr m) [ none ↦ none | some m' ↦ free_down i wr m' ]

-- The callback of the write that was begun first.
unfoldable pub tcp_after_write : Connection → Option Connection
tcp_after_write c = elim c.in_flight [
  | [] ↦ some c
  | wr ∷ wrs ↦ elim (free_down wr.bufcnt wr c.memory) [
    | none ↦ none
    | some m ↦ some (record c { memory = m; in_flight = wrs })
  ]
]

-- What a script and libuv do with a connection, in any order.
pub data Step : Type 0 where
  write : Chunk → Bool → Step
  bottle after_write : Step

unfoldable pub step : Step → Connection → Option Connection
step (write chunk unbottle) c = tcp_write chunk unbottle c
step bottle c = some (tcp_bottle c)
step after_write c = tcp_after_write c

unfoldable pub steps : List Step → Connection → Option Connection
steps [] c = some c
steps (s ∷ ss) c = elim (step s c) [ none ↦ none | some c' ↦ steps ss c' ]

-- A new connection.
abbrev pub opened : Connection
opened = record {
  writer = record { bottle_mode = false; wreq = none };
  memory = record { cell = λ a. none; next = 1 };
  in_flight = [];
}
