-- ===== src/Mpack/Writer.antt =====
-- The write buffer and the scalar packers of src/lev_mpack.c.
use lev.Base.{
  ℕ, ◌+◌, ◌-◌, ◌*◌, Bool, List, [], ◌∷◌, ◌++◌, ltb, if◌then◌else◌, bit_or, length, is_empty,
}
use lev.Base.Int.{ℤ, pos, negsuc}
use lev.Base.Bytes.{to_be}
use lev.Mpack.Value.{Number, integer, double, is_inf, is_nan, is_positive, Conversions}

-- The ERRORBIT_ flags.
pub data ErrorBit : Type 0 where
  bufnoleft stringlen type_lightuserdata type_function type_userdata type_thread type_unknown :
      ErrorBit

-- `mpwbuf_t`: the bytes of `data` below `used`, and the flags that `err` holds, the last one set
-- first (`err |= x` is `x ∷ err`, and `err == 0` is `[]`).
pub record WriteBuffer : Type 0 where
  pub data_used : List ℕ
  pub err : List ErrorBit

-- `sizeof(b->data)`.
abbrev pub capacity : ℕ
capacity = 1024 * 1024

-- A packer returns the buffer and the number of bytes that it wrote.
abbrev pub Packer : Type 0
Packer = WriteBuffer → WriteBuffer × ℕ

abbrev pub mpwbuf_init : WriteBuffer
mpwbuf_init = record { data_used = []; err = [] }

abbrev pub mpwbuf_left : WriteBuffer → ℕ
mpwbuf_left b = capacity - length b.data_used

unfoldable pub mpwbuf_append : List ℕ → Packer
mpwbuf_append toadd b =
    if is_empty b.err
    then (if ltb (mpwbuf_left b) (length toadd)
        then (record b { err = bufnoleft ∷ b.err }, 0)
        else (record b { data_used = b.data_used ++ toadd }, length toadd))
    else (b, 0)

-- `wl += …`.
infixl 30 ◌then_add◌
unfoldable pub ◌then_add◌ : Packer → Packer → Packer
(p then_add q) b = let (b', n) = p b in let (b'', m) = q b' in (b'', n + m)

unfoldable pub write_nothing : Packer
write_nothing b = (b, 0)

-- `b->err |= bit`, and 0 bytes.
unfoldable pub raise : ErrorBit → Packer
raise bit b = (record b { err = bit ∷ b.err }, 0)

unfoldable pub pack_nil : Packer
pack_nil = mpwbuf_append (0xc0 ∷ [])

unfoldable pub pack_boolean : Bool → Packer
pack_boolean i = mpwbuf_append ((if i then 0xc3 else 0xc2) ∷ [])

-- The bytes of the local `buf`, for the `long long` `lv`. The low k bytes of a negative number
-- -(m + 1) are those of 2^(8k) - 1 - m.
unfoldable pub integer_bytes : ℤ → List ℕ
integer_bytes (pos n) =
    if ltb n 128
    then n ∷ []
    else if ltb n 256
    then 0xcc ∷ n ∷ []
    else if ltb n 65536
    then 0xcd ∷ to_be 2 n
    else if ltb n 4294967296
    then 0xce ∷ to_be 4 n
    else 0xcf ∷ to_be 8 n
integer_bytes (negsuc m) =
    if ltb m 32
    then bit_or 0xe0 (255 - m) ∷ []
    else if ltb m 128
    then 0xd0 ∷ (255 - m) ∷ []
    else if ltb m 32768
    then 0xd1 ∷ to_be 2 (65535 - m)
    else if ltb m 2147483648
    then 0xd2 ∷ to_be 4 (4294967295 - m)
    else 0xd3 ∷ to_be 8 (18446744073709551615 - m)

unfoldable pub number_bytes : Conversions → Number → List ℕ
unfolding integer_bytes
number_bytes c (integer z) = integer_bytes (c.to_long_long z)
number_bytes c (double w) =
    if is_inf w
    then 0xcb ∷ (if is_positive w then 0x7f else 0xff) ∷ 0xf0 ∷ 0 ∷ 0 ∷ 0 ∷ 0 ∷ 0 ∷ 0 ∷ []
    else if is_nan w
    then 0xcb ∷ 0xff ∷ 0xf8 ∷ 0 ∷ 0 ∷ 0 ∷ 0 ∷ 0 ∷ 0 ∷ []
    else 0xcb ∷ to_be 8 w

unfoldable pub pack_number : Conversions → Number → Packer
pack_number c n = mpwbuf_append (number_bytes c n)

unfoldable pub pack_string : List ℕ → Packer
pack_string sval =
    let slen = length sval in
    if ltb slen 32
    then mpwbuf_append (bit_or 0xa0 slen ∷ []) then_add mpwbuf_append sval
    else if ltb slen 65536
    then mpwbuf_append (0xda ∷ []) then_add mpwbuf_append (to_be 2 slen) then_add mpwbuf_append sval
    else if ltb slen (4294967296 - 1)
    then mpwbuf_append (0xdb ∷ []) then_add mpwbuf_append (to_be 4 slen) then_add mpwbuf_append sval
    else raise stringlen

-- The bytes before a table's elements, with the flag of the short form and the two long tags.
unfoldable pub pack_size : ℕ → ℕ → ℕ → ℕ → Packer
pack_size fix tag16 tag32 l =
    if ltb l 16
    then mpwbuf_append (bit_or fix l ∷ [])
    else if ltb l 65536
    then mpwbuf_append (tag16 ∷ []) then_add mpwbuf_append (to_be 2 l)
    else if ltb l (4294967296 - 1)
    then mpwbuf_append (tag32 ∷ []) then_add mpwbuf_append (to_be 4 l)
    else write_nothing
