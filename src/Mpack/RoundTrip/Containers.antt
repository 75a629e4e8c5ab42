-- ===== src/Mpack/RoundTrip/Containers.antt =====
-- Reading the elements of an array and the pairs of a map, as src/lev_mpack.c does.
use lev.Mpack.Format.Lengths.{size_pos}
use lev.Mpack.Reader.{
  Reader, Source, unpack_fields, unpack_items, ok, ReadBuffer, unpack_anytype, is_key, Result,
  unpack_array, unpack_map, lua_rawset,
}
use lev.Base.{
  ℕ, suc, ◌+◌, ◌^◌, ◌<◌, ◌≤◌, ◌≡◌, ◌∙◌, Bool, true, false, Option, List, ◌++◌, arith, length,
  append_assoc, length-append, lt→ltb,
}
use lev.Mpack.Value.{table, no_items, item, no_fields, Conversions, Value, Fields, Items}
use lev.Mpack.Reader.Fronts.{array-Reads, map-Reads}
use lev.Mpack.Reader.Numbers.{from}
use lev.Mpack.Format.{size_format}

-- one pair of a map, its key and value read
pub field_step :
    (any : Reader Value) (n : ℕ) (b b₁ b₂ b₃ : ReadBuffer) (k v : Value) (t fs : Fields)
    → any (record b { map_keying = true }) ≡ ok (k, b₁)
    → any (record b₁ { map_keying = false }) ≡ ok (v, b₂)
    → is_key k ≡ true
    → unpack_fields any n (lua_rawset k v t) b₂ ≡ ok (fs, b₃)
    → unpack_fields any (suc n) t b ≡ ok (fs, b₃)
unfolding unpack_fields
field_step any n b b₁ b₂ b₃ k v t fs e₁ e₂ e₃ e₄ = rw (e₁, e₂, e₃, e₄)

pub item_step :
    (any : Reader Value) (n : ℕ) (b b₁ b₂ : ReadBuffer) (v : Value) (vs : Items)
    → any b ≡ ok (v, b₁)
    → unpack_items any n b₁ ≡ ok (vs, b₂)
    → unpack_items any (suc n) b ≡ ok (item v vs, b₂)
unfolding unpack_items
item_step any n b b₁ b₂ v vs e₁ e₂ = rw (e₁, e₂)

-- With fuel for each byte, one reader reads `bs` as `r` before any rest.
abbrev pub ReadsAt {ℓ} : {A : Type ℓ} → Reader A → List ℕ → A → Bool → Type ℓ
ReadsAt p bs r keying =
    (rest : List ℕ) (ofs : ℕ)
    → p (from (bs ++ rest) ofs keying) ≡ ok (r, from rest (ofs + length bs) keying)

-- A container's content is shorter than the container.
pub no_fuel :
    (fix tag16 tag32 l : ℕ) (bs : List ℕ) → length (size_format fix tag16 tag32 l ++ bs) ≤ 0 → ⊥
no_fuel fix tag16 tag32 l bs h =
    omega (arith, size_pos fix tag16 tag32 l, length-append (size_format fix tag16 tag32 l) bs)

pub content_fuel :
    (fix tag16 tag32 l : ℕ) (bs : List ℕ) (f : ℕ)
    → length (size_format fix tag16 tag32 l ++ bs) ≤ suc f
    → length bs ≤ f
content_fuel fix tag16 tag32 l bs f h =
    omega (arith, size_pos fix tag16 tag32 l, length-append (size_format fix tag16 tag32 l) bs)

pub ends :
    {A : Type 0} (v : A) (rest : List ℕ) {i j : ℕ} (keying : Bool)
    → i ≡ j
    → ◌≡◌ {A = Result (A × ReadBuffer)} (ok (v, from rest i keying)) (ok (v, from rest j keying))
ends v rest keying e = rw e

pub item_Reads :
    (any : Reader Value) (n : ℕ) (xs ys : List ℕ) (v : Value) (vs : Items)
    → ReadsAt any xs v false
    → ReadsAt (unpack_items any n) ys vs false
    → ReadsAt (unpack_items any (suc n)) (xs ++ ys) (item v vs) false
item_Reads any n xs ys v vs rv rvs rest ofs = rw (append_assoc xs ys rest) (
    item_step any n _ _ _ v vs (rv (ys ++ rest) ofs) (rvs rest (ofs + length xs))
    ∙ ends _ rest false (omega (arith, length-append xs ys)))

pub field_Reads :
    (any : Reader Value) (n : ℕ) (xs ys zs : List ℕ) (k v : Value) (t fs : Fields)
    → ReadsAt any xs k true
    → is_key k ≡ true
    → ReadsAt any ys v false
    → ReadsAt (unpack_fields any n (lua_rawset k v t)) zs fs false
    → ReadsAt (unpack_fields any (suc n) t) (xs ++ (ys ++ zs)) fs false
field_Reads any n xs ys zs k v t fs rk ek rv rfs rest ofs =
    rw (append_assoc xs (ys ++ zs) rest, append_assoc ys zs rest)
      (field_step any n _ _ _ _ k v t fs (rk (ys ++ (zs ++ rest)) ofs)
          (rv (zs ++ rest) (ofs + length xs)) ek (rfs rest (ofs + length xs + length ys))
        ∙ ends _ rest false (omega (arith, length-append xs (ys ++ zs), length-append ys zs)))

module _ (c : Conversions) (mb : Option Source) (f l : ℕ) (bs : List ℕ) (small : l < 2 ^ 31) where
  pub array_Reads :
      (vs : Items)
      → ReadsAt (unpack_items (unpack_anytype c mb f) l) bs vs false
      → ReadsAt
          (unpack_anytype c mb (suc f))
          (size_format 144 0xdc 0xdd l ++ bs)
          (table vs no_fields)
          false
  unfolding unpack_array
  array_Reads vs r rest ofs =
      let front = size_format 144 0xdc 0xdd l in
      rw
        (
          append_assoc front bs rest,
          array-Reads c mb f (bs ++ rest) ofs false l small,
          lt→ltb l (2 ^ 31) small,
          r rest (ofs + length front),
        )
        (ends _ rest false (omega (arith, length-append front bs)))

  pub map_Reads :
      (fs : Fields)
      → ReadsAt (unpack_fields (unpack_anytype c mb f) l no_fields) bs fs false
      → ReadsAt
          (unpack_anytype c mb (suc f))
          (size_format 128 0xde 0xdf l ++ bs)
          (table no_items fs)
          false
  unfolding unpack_map
  map_Reads fs r rest ofs =
      let front = size_format 128 0xde 0xdf l in
      rw
        (
          append_assoc front bs rest,
          map-Reads c mb f (bs ++ rest) ofs false l small,
          lt→ltb l (2 ^ 31) small,
          r rest (ofs + length front),
        )
        (ends _ rest false (omega (arith, length-append front bs)))
