-- ===== src/Mpack/RoundTrip.antt =====
-- Reading back what `pack` wrote.
pub mod Containers
pub mod Keys
use lev.Mpack.RoundTrip.Keys.{AreSettable, set_all_fields, set_all}
use lev.Mpack.Format.Numbers.{number_bytes_lem}
use lev.Mpack.RoundTrip.Containers.{
  ReadsAt, ends, no_fuel, content_fuel, array_Reads, item_Reads, map_Reads, field_Reads,
}
use lev.Mpack.Format.Lengths.{format_pos, is_foreign}
use lev.Mpack.Reader.{
  Source, unpack_fields, unpack_items, ok, ReadBuffer, unpack_anytype, is_key, msgpack_unpack_api,
  unpacked, mprbuf_init, InBlock, lua_rawset, unpack_bytes, api_in,
}
use lev.Base.{
  ℕ, zero, suc, ◌^◌, ◌<◌, ◌≤◌, ◌≡◌, refl, ◌∙◌, Bool, true, false, Option, some, List, [], ◌∷◌, ◌++◌,
  arith, length, length-append, ap, sym,
}
use lev.Mpack.Value.{
  nil, boolean, number, string, buffer, table, no_items, item, no_fields, field, Conversions, Value,
  Fields, Items, items_length, fields_length,
}
use lev.Mpack.Reader.Fronts.{IsExact, number-Reads, string-Reads, nil-Reads, boolean-Reads}
use lev.Mpack.Reader.Numbers.{from, read_as, IsSliceable}
use lev.Mpack.Format.{format, format_items, format_fields}

-- The value that is read for `v`: strings and buffers are slices of the block, if there is one, but
-- for keys; the pairs of a table with an array part are lost.
unfoldable mutual
  pub read_back : Option Source → Bool → Value → Value
  read_back mb keying nil = nil
  read_back mb keying (boolean i) = boolean i
  read_back mb keying (number n) = number n
  read_back mb keying (string s) = read_as mb keying s
  read_back mb keying (buffer s) = read_as mb keying s
  read_back mb keying (table (item v vs) fs) =
      table (item (read_back mb false v) (read_items mb vs)) no_fields
  read_back mb keying (table no_items fs) = table no_items (read_fields mb fs)
  read_back mb keying v = v

  pub read_items : Option Source → Items → Items
  read_items mb no_items = no_items
  read_items mb (item v vs) = item (read_back mb false v) (read_items mb vs)

  pub read_fields : Option Source → Fields → Fields
  read_fields mb no_fields = no_fields
  read_fields mb (field k v fs) =
      field (read_back mb true k) (read_back mb false v) (read_fields mb fs)

-- A value that survives: its numbers are exact, its strings shorter than 2^32 and, where they become
-- slices, not empty; its tables are shorter than 2^31, and their keys are no tables, nil or NaN; the
-- keys of a table that is read as a map differ once they are read, and its values are not nil.
unfoldable mutual
  pub IsReadable : Conversions → Option Source → Bool → Value → Type 0
  IsReadable c mb keying nil = Unit
  IsReadable c mb keying (boolean i) = Unit
  IsReadable c mb keying (number n) = IsExact c n
  IsReadable c mb keying (string s) = (length s < 2 ^ 32) × IsSliceable mb keying s
  IsReadable c mb keying (buffer s) = (length s < 2 ^ 32) × IsSliceable mb keying s
  IsReadable c mb keying (table (item v vs) fs) =
      (keying ≡ false)
      × (suc (items_length vs) < 2 ^ 31)
      × IsReadable c mb false v
      × AllReadable c mb vs
  IsReadable c mb keying (table no_items fs) =
      (keying ≡ false)
      × (fields_length fs < 2 ^ 31)
      × AreSettable no_fields (read_fields mb fs)
      × AllFieldsReadable c mb fs
  IsReadable c mb keying v = ⊥

  pub AllReadable : Conversions → Option Source → Items → Type 0
  AllReadable c mb no_items = Unit
  AllReadable c mb (item v vs) = IsReadable c mb false v × AllReadable c mb vs

  pub AllFieldsReadable : Conversions → Option Source → Fields → Type 0
  AllFieldsReadable c mb no_fields = Unit
  AllFieldsReadable c mb (field k v fs) =
      IsReadable c mb true k
      × (is_key (read_back mb true k) ≡ true)
      × IsReadable c mb false v
      × AllFieldsReadable c mb fs

mutual
  unfolding IsReadable read_back format unpack_items unpack_fields

  value-Reads :
      (c : Conversions) (mb : Option Source) (v : Value) (keying : Bool) (f : ℕ)
      → IsReadable c mb keying v
      → length (format c v) ≤ f
      → ReadsAt (unpack_anytype c mb (suc f)) (format c v) (read_back mb keying v) keying
  value-Reads c mb nil keying f h fuel rest ofs = nil-Reads c mb f rest ofs keying
  value-Reads c mb (boolean i) keying f h fuel rest ofs = boolean-Reads c mb f rest ofs keying i
  value-Reads c mb (number n) keying f h fuel rest ofs =
      rw (sym (number_bytes_lem c n)) (number-Reads c mb f rest ofs keying n h)
  value-Reads c mb (string s) keying f (h, k) fuel rest ofs =
      string-Reads c mb f rest ofs keying s h k
  value-Reads c mb (buffer s) keying f (h, k) fuel rest ofs =
      string-Reads c mb f rest ofs keying s h k
  value-Reads c mb (table (item v vs) fs) keying zero (nk, small, hv, hvs) fuel rest ofs =
      absurd (no_fuel 144 0xdc 0xdd (suc (items_length vs)) _ fuel)
  value-Reads c mb (table (item v vs) fs) keying (suc f) (nk, small, hv, hvs) fuel rest ofs =
      let less =
        content_fuel 144 0xdc 0xdd (suc (items_length vs)) (format c v ++ format_items c vs) f
          fuel in
      rw nk (
        array_Reads c mb (suc f) (suc (items_length vs)) (format c v ++ format_items c vs) small _
          (item_Reads (unpack_anytype c mb (suc f)) (items_length vs) (format c v)
            (format_items c vs) _ _
            (value-Reads c mb v false f hv
              (omega (arith, length-append (format c v) (format_items c vs))))
            (items-Reads c mb vs f hvs
              (omega (arith, length-append (format c v) (format_items c vs)))))
          rest ofs)
  value-Reads c mb (table no_items fs) keying zero (nk, small, set, h) fuel rest ofs =
      absurd (no_fuel 128 0xde 0xdf (fields_length fs) _ fuel)
  value-Reads c mb (table no_items fs) keying (suc f) (nk, small, set, h) fuel rest ofs =
      rw (nk, sym (set_all_fields (read_fields mb fs) set))
        (map_Reads c mb (suc f) (fields_length fs) (format_fields c fs) small _
          (fields-Reads c mb fs no_fields f h
            (content_fuel 128 0xde 0xdf (fields_length fs) (format_fields c fs) f fuel))
          rest ofs)
  value-Reads c mb Value.light_userdata keying f h fuel rest ofs = absurd h
  value-Reads c mb Value.function keying f h fuel rest ofs = absurd h
  value-Reads c mb Value.userdata keying f h fuel rest ofs = absurd h
  value-Reads c mb Value.thread keying f h fuel rest ofs = absurd h
  value-Reads c mb Value.cdata keying f h fuel rest ofs = absurd h

  items-Reads :
      (c : Conversions) (mb : Option Source) (vs : Items) (f : ℕ)
      → AllReadable c mb vs
      → length (format_items c vs) ≤ f
      → ReadsAt
          (unpack_items (unpack_anytype c mb (suc f)) (items_length vs))
          (format_items c vs)
          (read_items mb vs)
          false
  items-Reads c mb no_items f h fuel rest ofs = ends _ rest false (omega arith)
  items-Reads c mb (item v vs) f (hv, hvs) fuel rest ofs =
      item_Reads (unpack_anytype c mb (suc f)) (items_length vs) (format c v) (format_items c vs) _
        _
        (value-Reads c mb v false f hv
          (omega (arith, length-append (format c v) (format_items c vs))))
        (items-Reads c mb vs f hvs (omega (arith, length-append (format c v) (format_items c vs))))
        rest ofs

  fields-Reads :
      (c : Conversions) (mb : Option Source) (fs t : Fields) (f : ℕ)
      → AllFieldsReadable c mb fs
      → length (format_fields c fs) ≤ f
      → ReadsAt
          (unpack_fields (unpack_anytype c mb (suc f)) (fields_length fs) t)
          (format_fields c fs)
          (set_all (read_fields mb fs) t)
          false
  fields-Reads c mb no_fields t f h fuel rest ofs = ends _ rest false (omega arith)
  fields-Reads c mb (field k v fs) t f (hk, ek, hv, hfs) fuel rest ofs =
      let lengths = length-append (format c k) (format c v ++ format_fields c fs) in
      let lengths' = length-append (format c v) (format_fields c fs) in
      field_Reads (unpack_anytype c mb (suc f)) (fields_length fs) (format c k) (format c v)
        (format_fields c fs) (read_back mb true k) (read_back mb false v) t _
        (value-Reads c mb k true f hk (omega arith)) ek
        (value-Reads c mb v false f hv (omega arith))
        (fields-Reads c mb fs (lua_rawset (read_back mb true k) (read_back mb false v) t) f hfs
          (omega arith))
        rest ofs

-- A value that the writer has bytes for.
readable-IsKnown :
    (c : Conversions) (mb : Option Source) (keying : Bool) (v : Value)
    → IsReadable c mb keying v
    → is_foreign v ≡ false
unfolding IsReadable
readable-IsKnown c mb keying Value.light_userdata h = absurd h
readable-IsKnown c mb keying Value.function h = absurd h
readable-IsKnown c mb keying Value.userdata h = absurd h
readable-IsKnown c mb keying Value.thread h = absurd h
readable-IsKnown c mb keying Value.cdata h = absurd h
readable-IsKnown c mb keying _ h = refl

api_ok :
    (c : Conversions) (src : Source) (bs : List ℕ) (v : Value) (b : ReadBuffer)
    → 0 < length bs
    → unpack_anytype c (some src) (suc (length bs)) (mprbuf_init bs) ≡ ok (v, b)
    → unpack_bytes c src bs ≡ ok (unpacked b.ofs v)
unfolding unpack_bytes
api_ok c src [] v b h e = absurd (omega arith)
api_ok c src (t ∷ ts) v b h e = rw (e, unpack_bytes)

-- `unpack` reads the format of a readable value (`IsReadable`), whatever bytes follow it in the
-- block, as `read_back` of the value, and returns the length of the format as the count of bytes.
pub unpack-format :
    (c : Conversions) (src : Source) (v : Value) (rest : List ℕ)
    → IsReadable c (some src) false v
    → InBlock src (length (format c v ++ rest))
    → msgpack_unpack_api c src (format c v ++ rest)
      ≡ some (ok (unpacked (length (format c v)) (read_back (some src) false v)))
unpack-format c src v rest h inside =
    api_in c src (format c v ++ rest) inside
    ∙ ap some (
        api_ok c src (format c v ++ rest) (read_back (some src) false v)
          (from rest (length (format c v)) false)
          (omega
            (arith, length-append (format c v) rest, format_pos c v (readable-IsKnown c _ _ v h)))
          (value-Reads c (some src) v false (length (format c v ++ rest)) h
              (omega (arith, length-append (format c v) rest)) rest 0
            ∙ ends _ rest false (omega arith)))
