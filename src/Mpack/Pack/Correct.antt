-- ===== src/Mpack/Pack/Correct.antt =====
-- `mpwbuf_pack_anytype` and `msgpack_pack_api` against the format.
use lev.Mpack.Format.Numbers.{number_bytes_lem}
use lev.Mpack.Format.Lengths.{format_pos, data-IsKnown}
use lev.Base.Bytes.{or_fixarray, or_fixmap}
use lev.Mpack.Writer.{Packer, capacity, mpwbuf_init, pack_nil, pack_boolean, pack_number}
use lev.Mpack.Pack.Writes.{
  Writes, append-Writes, string-Writes, then-Writes, size-Writes, nothing-Writes,
}
use lev.Mpack.Pack.{
  pack_anytype, msgpack_pack_api, int_rounds, packed, pack_items, pack_fields, error, error_message,
}
use lev.Base.{
  ℕ, ◌≤◌, ◌<◌, ◌≡◌, refl, false, List, ◌++◌, arith, length, is_empty, ◌^◌, append_assoc, lt→ltb,
}
use Prim.Native.String.{String}
use lev.Mpack.Value.{
  nil, Conversions, Value, boolean, number, string, buffer, table, item, Items, items_length,
  Fields, field, no_items, no_fields,
}
use lev.Mpack.Format.{format, IsData, AllData, format_items, AllPairs, format_fields}

-- Fewer than 2^31 elements are as many rounds of the loop over the array part.
rounds : (l : ℕ) → l < 2 ^ 31 → int_rounds l ≡ l
rounds l h = ground arith

append_assoc-Writes :
    {p : Packer} (xs ys zs : List ℕ) → Writes p ((xs ++ ys) ++ zs) → Writes p (xs ++ (ys ++ zs))
append_assoc-Writes xs ys zs w = rw (← append_assoc xs ys zs) w

mutual
  unfolding pack_anytype format IsData pack_nil pack_boolean pack_number

  pack-Writes : (c : Conversions) (v : Value) → IsData v → Writes (pack_anytype c v) (format c v)
  pack-Writes c nil h = append-Writes _
  pack-Writes c (boolean i) h = append-Writes _
  pack-Writes c (number n) h = rw (number_bytes_lem c n) (append-Writes _)
  pack-Writes c (string s) h = string-Writes s
  pack-Writes c (buffer s) h = string-Writes s
  pack-Writes c (table (item v vs) fs) (small, hv, hvs) =
      then-Writes (size-Writes _ _ _ _ (or_fixarray _) (omega arith))
        (rw (rounds _ small) (then-Writes (pack-Writes c v hv) (items-Writes c vs hvs)))
  pack-Writes c (table no_items fs) (small, h) =
      then-Writes (size-Writes _ _ _ _ (or_fixmap _) (omega arith)) (fields-Writes c fs h)
  pack-Writes c Value.light_userdata h = absurd h
  pack-Writes c Value.function h = absurd h
  pack-Writes c Value.userdata h = absurd h
  pack-Writes c Value.thread h = absurd h
  pack-Writes c Value.cdata h = absurd h

  items-Writes :
      (c : Conversions) (vs : Items)
      → AllData vs
      → Writes (pack_items c vs (items_length vs)) (format_items c vs)
  items-Writes c no_items h = nothing-Writes
  items-Writes c (item v vs) (hv, hvs) = then-Writes (pack-Writes c v hv) (items-Writes c vs hvs)

  fields-Writes :
      (c : Conversions) (fs : Fields) → AllPairs fs → Writes (pack_fields c fs) (format_fields c fs)
  fields-Writes c no_fields h = nothing-Writes
  fields-Writes c (field k v fs) (hk, hv, hfs) =
      append_assoc-Writes (format c k) (format c v) (format_fields c fs) (
        then-Writes (then-Writes (pack-Writes c k hk) (pack-Writes c v hv))
          (fields-Writes c fs hfs))

-- A flag that is set makes the call raise its message.
error_raised :
    (c : Conversions) (v : Value)
    → is_empty (pack_anytype c v mpwbuf_init).0.err ≡ false
    → msgpack_pack_api c v ≡ error (error_message (pack_anytype c v mpwbuf_init).0.err)
unfolding msgpack_pack_api
error_raised c v h = ground arith

-- For a value that is data (`IsData`), `pack` returns its MessagePack bytes if they fit in the
-- write buffer, and raises "no buffer left" or another error if they do not.
pub pack-format :
    (c : Conversions) (v : Value)
    → IsData v
    → (length (format c v) ≤ capacity → msgpack_pack_api c v ≡ packed (format c v))
      × (capacity < length (format c v) → (m : String) × (msgpack_pack_api c v ≡ error m))
unfolding msgpack_pack_api
pack-format c v h =
    let w = pack-Writes c v h in
    (
      (λ small.
          rw (w.fits mpwbuf_init (refl, omega arith) (omega arith))
            (rw (lt→ltb _ _ (format_pos c v (data-IsKnown v h))) refl)),
      (λ large. (_, error_raised c v (w.overflows mpwbuf_init (refl, omega arith) (omega arith)))),
    )
