-- ===== src/Mpack/Pack.antt =====
-- `mpwbuf_pack_table`, `mpwbuf_pack_anytype` and `msgpack_pack_api` of src/lev_mpack.c.
pub mod Writes
pub mod Correct
use lev.Base.{
  ℕ, zero, suc, ◌%◌, ◌^◌, Bool, true, false, List, [], ◌∷◌, ltb, if◌then◌else◌, is_empty, ◌&&◌,
}
use Prim.Native.String.{String}
use lev.Mpack.Value.{
  Value, Items, Fields, nil, boolean, number, string, buffer, table, light_userdata, function,
  userdata, thread, cdata, no_items, item, no_fields, field, items_length, fields_length,
  Conversions,
}
use lev.Mpack.Writer.{
  ErrorBit, bufnoleft, stringlen, type_lightuserdata, type_function, type_userdata, type_thread,
  type_unknown, Packer, mpwbuf_init, ◌then_add◌, write_nothing, raise, pack_nil, pack_boolean,
  pack_number, pack_string, pack_size,
}

-- `(int)l`, as the count of rounds of `for (i = 1; i <= (int)l; i++)`.
abbrev pub int_rounds : ℕ → ℕ
int_rounds l = let w = l % 2 ^ 32 in if ltb w (2 ^ 31) then w else 0

-- The array part is tried first; the other pairs of a table that has one are left out.
unfoldable mutual
  pub pack_anytype : Conversions → Value → Packer
  pack_anytype c nil = pack_nil
  pack_anytype c (boolean i) = pack_boolean i
  pack_anytype c (number n) = pack_number c n
  pack_anytype c (string s) = pack_string s
  pack_anytype c (buffer s) = pack_string s
  pack_anytype c (table (item v vs) fs) =
      let l = items_length (item v vs) in
      pack_size 0x90 0xdc 0xdd l then_add pack_items c (item v vs) (int_rounds l)
  pack_anytype c (table no_items fs) =
      pack_size 0x80 0xde 0xdf (fields_length fs) then_add pack_fields c fs
  pack_anytype c light_userdata = raise type_lightuserdata
  pack_anytype c function = raise type_function
  pack_anytype c userdata = raise type_userdata
  pack_anytype c thread = raise type_thread
  pack_anytype c cdata = raise type_unknown

  pub pack_items : Conversions → Items → ℕ → Packer
  pack_items c no_items n = write_nothing
  pack_items c (item v vs) zero = write_nothing
  pack_items c (item v vs) (suc n) = pack_anytype c v then_add pack_items c vs n

  pub pack_fields : Conversions → Fields → Packer
  pack_fields c no_fields = write_nothing
  pack_fields c (field k v fs) =
      pack_anytype c k then_add pack_anytype c v then_add pack_fields c fs

-- `err & bit`.
abbrev has : ErrorBit → List ErrorBit → Bool
has bit [] = false
has bit (e ∷ es) = if same bit e then true else has bit es
  where
    same : ErrorBit → ErrorBit → Bool
    same bufnoleft bufnoleft = true
    same stringlen stringlen = true
    same type_lightuserdata type_lightuserdata = true
    same type_function type_function = true
    same type_userdata type_userdata = true
    same type_thread type_thread = true
    same type_unknown type_unknown = true
    same _ _ = false

-- The message of `lua_error`, for the flags that are set.
unfoldable pub error_message : List ErrorBit → String
error_message err =
    if has bufnoleft err
    then "no buffer left"
    else if has stringlen err
    then "string too long"
    else if has type_lightuserdata err
    then "invalid type: lightuserdata"
    else if has type_function err
    then "invalid type: function"
    else if has type_userdata err
    then "invalid type: userdata"
    else if has type_thread err
    then "invalid type: thread"
    else if has type_unknown err
    then "invalid type: unknown"
    else "unknown error"

-- The call returns a buffer of these bytes, or raises a Lua error.
pub data Packed : Type 0 where
  packed : List ℕ → Packed
  error : String → Packed

unfoldable pub msgpack_pack_api : Conversions → Value → Packed
msgpack_pack_api c v =
    let (b, wlen) = pack_anytype c v mpwbuf_init in
    if ltb 0 wlen && is_empty b.err then packed b.data_used else error (error_message b.err)
