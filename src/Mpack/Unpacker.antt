-- ===== src/Mpack/Unpacker.antt =====
-- The incremental unpacker of src/lev_mpack.c: it counts the values that have come in whole, and
-- `pull` reads them from its buffer.
pub mod Bounds
pub mod Buffered
pub mod Parts
pub mod Feeding
use lev.Mpack.Reader.{unpack_anytype, mprbuf_init, ok, failed, err_in_map, raised, out_of_fuel}
use lev.Mpack.Value.{Conversions, Value}
use lev.Base.{
  ℕ, zero, suc, ◌+◌, ◌-◌, ◌*◌, Bool, true, false, Option, none, some, List, [], ◌∷◌, ◌++◌, ltb, leb,
  ◌==◌, if◌then◌else◌, length, bit_and, ◌&&◌, not, drop,
}
use Prim.Native.Nat.{min}
use lev.Base.Bytes.{from_be}

-- MP_CONTAINER_TYPE, without its prefix.
pub data ContainerType : Type 0 where
  fixarray fixmap array16 map16 array32 map32 raw16 raw32 : ContainerType
  raw float double uint8 uint16 uint32 uint64 int8 int16 int32 int64 : ContainerType

abbrev pub is_container : ContainerType → Bool
is_container fixarray = true
is_container fixmap = true
is_container array16 = true
is_container map16 = true
is_container array32 = true
is_container map32 = true
is_container _ = false

abbrev pub sizesize_of : ContainerType → ℕ
sizesize_of array16 = 2
sizesize_of map16 = 2
sizesize_of raw16 = 2
sizesize_of array32 = 4
sizesize_of map32 = 4
sizesize_of raw32 = 4
sizesize_of _ = 0

abbrev pub is_map : ContainerType → Bool
is_map fixmap = true
is_map map16 = true
is_map map32 = true
is_map _ = false

-- `mpstackent_t`. `sizesofar` is the length of `sizebytes`.
pub record StackEntry : Type 0 where
  pub t : ContainerType
  pub expect : ℕ
  pub sofar : ℕ
  pub sizebytes : List ℕ
  pub sizesize : ℕ

-- `unpacker_t`: the used bytes of `buf`, its size, and the stack, the top first (`nstacked` is its
-- length).
pub record Unpacker : Type 0 where
  pub buf : List ℕ
  pub size : ℕ
  pub stack : List StackEntry
  pub resultnum : ℕ

abbrev pub max_stack : ℕ
max_stack = 256

unfoldable pub unpacker_init : ℕ → Unpacker
unpacker_init maxsize = record { buf = []; size = maxsize; stack = []; resultnum = 0 }

abbrev pub stackent_init : ContainerType → ℕ → StackEntry
stackent_init t expect = record {
  t = t;
  expect = expect;
  sofar = 0;
  sizebytes = [];
  sizesize = sizesize_of t;
}

-- One more byte of a container's size, and what it expects when that was the last one.
unfoldable pub add_sizebyte : StackEntry → ℕ → StackEntry
add_sizebyte e ch =
    let bytes = e.sizebytes ++ ch ∷ [] in
    let count = from_be 0 bytes in
    record e {
      sizebytes = bytes;
      expect =
          if length bytes == e.sizesize
          then (if is_map e.t then 2 * count else count)
          else e.expect;
    }

-- The `for` loop of `unpacker_progress`, from the top of the stack down.
unfoldable pub progress_stack : List StackEntry → ℕ → List StackEntry
progress_stack [] ch = []
progress_stack (e ∷ es) ch =
    let popped = progress_stack es ch in
    if ltb (length e.sizebytes) e.sizesize
    then add_sizebyte e ch ∷ es
    else if ltb (e.sofar + 1) e.expect
    then record e { sofar = e.sofar + 1 } ∷ es
    else popped

abbrev pub count_result : List StackEntry → ℕ → ℕ
count_result [] n = n + 1
count_result (e ∷ es) n = n

unfoldable pub unpacker_progress : Unpacker → ℕ → Unpacker
unpacker_progress u ch =
    let st = progress_stack u.stack ch in
    record u { stack = st; resultnum = count_result st u.resultnum }

-- `none` is a failed assertion or an empty stack.
unfoldable pub progress_top : Unpacker → ℕ → List StackEntry → Option Unpacker
progress_top u progress [] = none
progress_top u progress (top ∷ es) =
    if ltb (top.expect - top.sofar) progress
    then none
    else if top.sofar + progress == top.expect
    then some (
        unpacker_progress
          (record u { stack = record top { sofar = top.sofar + progress - 1 } ∷ es }) 0)
    else some (record u { stack = record top { sofar = top.sofar + progress } ∷ es })

unfoldable pub unpacker_progress_datasize : Unpacker → ℕ → Option Unpacker
unpacker_progress_datasize u progress = progress_top u progress u.stack

-- `none` is -1.
unfoldable pub unpacker_push : Unpacker → ContainerType → ℕ → Option Unpacker
unpacker_push u t expect =
    if leb max_stack (length u.stack)
    then none
    else (let u' = record u { stack = stackent_init t expect ∷ u.stack } in
        some (if sizesize_of t == 0 && expect == 0 then unpacker_progress u' 0 else u'))

-- The count of data bytes that the top waits for: `some 0` for bytes of its size, none for values.
unfoldable pub container_needs_bytes : List StackEntry → Option ℕ
container_needs_bytes [] = none
container_needs_bytes (top ∷ es) =
    if ltb (length top.sizebytes) top.sizesize
    then some 0
    else if ltb top.sofar top.expect && not (is_container top.t)
    then some (top.expect - top.sofar)
    else none

-- The first byte of a value from 0xca on.
unfoldable pub feed_tagged : Unpacker → ℕ → Option Unpacker
feed_tagged u ch =
    if ch == 0xca
    then unpacker_push u float 4
    else if ch == 0xcb
    then unpacker_push u double 8
    else if ch == 0xcc
    then unpacker_push u uint8 1
    else if ch == 0xcd
    then unpacker_push u uint16 2
    else if ch == 0xce
    then unpacker_push u uint32 4
    else if ch == 0xcf
    then unpacker_push u uint64 8
    else if ch == 0xd0
    then unpacker_push u int8 1
    else if ch == 0xd1
    then unpacker_push u int16 2
    else if ch == 0xd2
    then unpacker_push u int32 4
    else if ch == 0xd3
    then unpacker_push u int64 8
    else if leb ch 0xd9
    then none
    else if ch == 0xda
    then unpacker_push u raw16 0
    else if ch == 0xdb
    then unpacker_push u raw32 0
    else if ch == 0xdc
    then unpacker_push u array16 0
    else if ch == 0xdd
    then unpacker_push u array32 0
    else if ch == 0xde
    then unpacker_push u map16 0
    else if ch == 0xdf
    then unpacker_push u map32 0
    else some (unpacker_progress u ch)

-- The first byte of a value.
unfoldable pub feed_value : Unpacker → ℕ → Option Unpacker
feed_value u ch =
    if leb ch 0x7f
    then some (unpacker_progress u ch)
    else if leb ch 0x8f
    then unpacker_push u fixmap (bit_and ch 0xf * 2)
    else if leb ch 0x9f
    then unpacker_push u fixarray (bit_and ch 0xf)
    else if leb ch 0xbf
    then unpacker_push u raw (bit_and ch 0x1f)
    else if ch == 0xc0
    then some (unpacker_progress u ch)
    else if ch == 0xc1
    then none
    else if ch == 0xc2
    then some (unpacker_progress u ch)
    else if ch == 0xc3
    then some (unpacker_progress u ch)
    else if leb ch 0xc9
    then none
    else feed_tagged u ch

-- What a step leaves of the input.
abbrev pub with_rest : List ℕ → Option Unpacker → Option (List ℕ × Unpacker)
with_rest p none = none
with_rest p (some u) = some (p, u)

-- One round of the loop of `unpacker_feed`, at the byte `ch` with `p` behind it, for the data bytes
-- that the top of the stack waits for.
unfoldable pub round_for : ℕ → List ℕ → Unpacker → Option ℕ → Option (List ℕ × Unpacker)
round_for ch p u none = with_rest p (feed_value u ch)
round_for ch p u (some zero) = some (p, unpacker_progress u ch)
round_for ch p u (some (suc n)) =
    let progress = min (suc n) (suc (length p)) in
    with_rest (drop progress (ch ∷ p)) (unpacker_progress_datasize u progress)

unfoldable pub feed_round : ℕ → List ℕ → Unpacker → Option (List ℕ × Unpacker)
feed_round ch p u = round_for ch p u (container_needs_bytes u.stack)

abbrev pub continue :
    (List ℕ → Unpacker → Unpacker × Bool) → Unpacker → Option (List ℕ × Unpacker) → Unpacker × Bool
continue loop u none = (u, false)
continue loop u (some (p, u')) = loop p u'

-- The loop over the bytes that are left; each round takes one at least. The answer is the state and
-- whether the loop reached the end.
unfoldable pub feed_loop : ℕ → List ℕ → Unpacker → Unpacker × Bool
feed_loop zero p u = (u, true)
feed_loop (suc fuel) [] u = (u, true)
feed_loop (suc fuel) (ch ∷ p) u = continue (feed_loop fuel) u (feed_round ch p u)

-- The result is true for 0 and false for -1.
unfoldable pub unpacker_feed : Unpacker → List ℕ → Unpacker × Bool
unpacker_feed u p =
    if ltb u.size (length u.buf + length p)
    then (u, false)
    else feed_loop (length p) p (record u { buf = u.buf ++ p })

-- `none` is a failed assertion.
unfoldable pub unpacker_shift : Unpacker → ℕ → Option Unpacker
unpacker_shift u l = if leb l (length u.buf) then some (record u { buf = drop l u.buf }) else none

-- `pull`: nil, or the next value and the unpacker without it.
pub data Pulled : Type 0 where
  nothing_ready : Pulled
  pulled : Value → Unpacker → Pulled
  not_read : Pulled

unfoldable pub msgpack_unpacker_pull_api : Conversions → Unpacker → Pulled
msgpack_unpacker_pull_api c u =
    if u.resultnum == 0
    then nothing_ready
    else elim (unpack_anytype c none (suc (length u.buf)) (mprbuf_init u.buf)) [
      | ok (v, b) ↦ elim (unpacker_shift u b.ofs) [
        | none ↦ not_read
        | some u' ↦ pulled v (record u' { resultnum = u'.resultnum - 1 })
      ]
      | failed ↦ not_read
      | err_in_map ↦ not_read
      | raised ↦ not_read
      | out_of_fuel ↦ not_read
    ]
