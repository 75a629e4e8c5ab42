-- ===== src/Mpack/Reader/Fronts.antt =====
-- The reader on a number, a string and a container's size, as the writer's format has them.
use lev.Mpack.Format.{size_format, string_format}
use lev.Base.Bytes.{
  to_be, length-to_be, or_negative, and_fixarray, and_fixmap, and_fixraw, from_be, from_be-to_be,
  byte_to_be,
}
use lev.Mpack.Writer.{integer_bytes, number_bytes}
use lev.Mpack.Reader.{
  Source, unpack_anytype, ReadBuffer, ok, unpack_from, read_number, unpack_tagged, signed, Result,
  unpack_array, unpack_map, Reader, claim, read_string, read_sized, ◌>>=◌, read_word_lem,
}
use lev.Mpack.Value.{
  Conversions, Number, Value, integer, double, is_nan, number, is_inf, is_positive, boolean, nil,
}
use lev.Base.Int.{ℤ, pos, negsuc}
use lev.Base.{
  ℕ, suc, ◌+◌, ◌-◌, ◌^◌, ◌<◌, ◌≡◌, refl, ap, ◌∙◌, Bool, true, false, Option, List, [], ◌∷◌, ◌++◌,
  ltb, arith, if◌then◌else◌, length, Bool-cases, inl, inr, ◌⊎◌, append_assoc, length-append,
}
use lev.Mpack.Reader.Numbers.{
  from, read_number-to_be, IsSliceable, read_as, read_string-append, read_sized-to_be, claim-to_be,
}

abbrev pub InLongLong : ℤ → Type 0
InLongLong (pos n) = n < 2 ^ 63
InLongLong (negsuc m) = m < 2 ^ 63

-- A number that a `long long` or the 8 bytes of a double carry with no loss.
abbrev pub IsExact : Conversions → Number → Type 0
IsExact c (integer z) = (c.to_long_long z ≡ z) × (c.of_long_long z ≡ integer z) × InLongLong z
IsExact c (double w) = (w < 2 ^ 64) × (is_nan w ≡ false) × (c.of_double w ≡ double w)

signed_complement : (half m : ℕ) → m < half → signed half (half + half - 1 - m) ≡ negsuc m
signed_complement half m h = ground arith

-- The two infinities, by their patterns.
infinity :
    (w : ℕ)
    → w < 2 ^ 64
    → is_inf w ≡ true
    → (w ≡ 0x7ff0000000000000) × (is_positive w ≡ true)
      ⊎ (w ≡ 0xfff0000000000000) × (is_positive w ≡ false)
infinity w h e = ground arith

double_bytes :
    (c : Conversions) (w : ℕ)
    → w < 2 ^ 64
    → is_nan w ≡ false
    → number_bytes c (double w) ≡ 0xcb ∷ to_be 8 w
unfolding number_bytes to_be
double_bytes c w h n = elim (Bool-cases (is_inf w)) [
  | inl i ↦ elim (infinity w h i) [ inl (v, s) ↦ rw v refl | inr (v, s) ↦ rw v refl ]
  | inr i ↦ rw (i, n)
]

module _ (c : Conversions) (mb : Option Source) (f : ℕ) (rest : List ℕ) (ofs : ℕ)
    (keying : Bool) where
  abbrev pub Reads : List ℕ → Value → Type 0
  Reads bs v =
      unpack_anytype c mb (suc f) (from (bs ++ rest) ofs keying)
      ≡ ok (v, from rest (ofs + length bs) keying)

  pub nil-Reads : Reads (0xc0 ∷ []) nil
  unfolding unpack_anytype unpack_from unpack_tagged
  nil-Reads = refl

  pub boolean-Reads : (i : Bool) → Reads ((if i then 0xc3 else 0xc2) ∷ []) (boolean i)
  unfolding unpack_anytype unpack_from unpack_tagged
  boolean-Reads true = refl
  boolean-Reads false = refl

  ends :
      (v : Value) {i j : ℕ}
      → i ≡ j
      → ◌≡◌ {A = Result (Value × ReadBuffer)}
          (ok (v, from rest i keying))
          (ok (v, from rest j keying))
  ends v e = rw e

  fixnum : (n : ℕ) → n < 128 → Reads (n ∷ []) (number (integer (pos n)))
  unfolding unpack_anytype unpack_from
  fixnum n h = ground arith

  negative_fixnum : (m : ℕ) → m < 32 → Reads ((255 - m) ∷ []) (number (integer (negsuc m)))
  unfolding unpack_anytype unpack_from
  negative_fixnum m h = ground arith

  tagged :
      (t k n : ℕ) (g : ℕ → Number)
      → ((b : ReadBuffer) → unpack_from c mb (unpack_anytype c mb f) t b ≡ read_number g k b)
      → n < 256 ^ k
      → {r : Number} → g n ≡ r
      → Reads (t ∷ to_be k n) (number r)
  unfolding unpack_anytype
  tagged t k n g e small {r} same = rw e (
      rw (read_number-to_be k n rest (ofs + 1) keying small g, same)
        (ends (number r) (omega (arith, length-to_be k n))))

  tagged_byte :
      (t n : ℕ) (g : ℕ → Number)
      → ((b : ReadBuffer) → unpack_from c mb (unpack_anytype c mb f) t b ≡ read_number g 1 b)
      → n < 256
      → {r : Number} → g n ≡ r
      → Reads (t ∷ n ∷ []) (number r)
  tagged_byte t n g e small {r} same =
      rw (byte_to_be n small) at (tagged t 1 n g e (omega arith) same)

  natural-Reads :
      (n : ℕ)
      → c.of_long_long (pos n) ≡ integer (pos n)
      → n < 2 ^ 63
      → Reads (integer_bytes (pos n)) (number (integer (pos n)))
  unfolding integer_bytes unpack_from unpack_tagged
  natural-Reads n e h = elim (Bool-cases (ltb n 128)) [
    | inl a ↦ rw a (fixnum n (ground arith))
    | inr a ↦ elim (Bool-cases (ltb n 256)) [
      | inl b ↦
          rw (a, b) (tagged_byte 0xcc n (λ w. integer (pos w)) (λ b. refl) (ground arith) refl)
      | inr b ↦ elim (Bool-cases (ltb n 65536)) [
        | inl d ↦
            rw (a, b, d) (tagged 0xcd 2 n (λ w. integer (pos w)) (λ b. refl) (ground arith) refl)
        | inr d ↦ elim (Bool-cases (ltb n 4294967296)) [
          | inl g ↦
              rw (a, b, d, g)
                (tagged 0xce 4 n (λ w. integer (pos w))
                  (λ b. read_word_lem (λ w. integer (pos w)) b) (ground arith) refl)
          | inr g ↦
              rw (a, b, d, g)
                (tagged 0xcf 8 n (λ w. c.of_long_long (pos w)) (λ b. refl) (omega arith) e)
        ]
      ]
    ]
  ]

  negative-Reads :
      (m : ℕ)
      → c.of_long_long (negsuc m) ≡ integer (negsuc m)
      → m < 2 ^ 63
      → Reads (integer_bytes (negsuc m)) (number (integer (negsuc m)))
  unfolding integer_bytes unpack_from unpack_tagged
  negative-Reads m e h = elim (Bool-cases (ltb m 32)) [
    | inl a ↦ rw (a, or_negative m (ground arith)) (negative_fixnum m (ground arith))
    | inr a ↦ elim (Bool-cases (ltb m 128)) [
      | inl b ↦
          rw (a, b)
            (tagged_byte 0xd0 (255 - m) (λ w. integer (signed (2 ^ 7) w)) (λ b. refl) (omega arith)
              (ap integer (signed_complement (2 ^ 7) m (ground arith))))
      | inr b ↦ elim (Bool-cases (ltb m 32768)) [
        | inl d ↦
            rw (a, b, d)
              (tagged 0xd1 2 (65535 - m) (λ w. integer (signed (2 ^ 15) w)) (λ b. refl)
                (omega arith) (ap integer (signed_complement (2 ^ 15) m (ground arith))))
        | inr d ↦ elim (Bool-cases (ltb m 2147483648)) [
          | inl g ↦
              rw (a, b, d, g)
                (tagged 0xd2 4 (4294967295 - m) (λ w. integer (signed (2 ^ 31) w))
                  (λ b. read_word_lem (λ w. integer (signed (2 ^ 31) w)) b) (omega arith)
                  (ap integer (signed_complement (2 ^ 31) m (ground arith))))
          | inr g ↦
              rw (a, b, d, g)
                (tagged 0xd3 8 (18446744073709551615 - m) (λ w. c.of_long_long (signed (2 ^ 63) w))
                  (λ b. refl) (omega arith)
                  (ap (λ z. c.of_long_long z) (signed_complement (2 ^ 63) m h) ∙ e))
        ]
      ]
    ]
  ]

  pub number-Reads : (n : Number) → IsExact c n → Reads (number_bytes c n) (number n)
  unfolding number_bytes
  number-Reads (integer (pos n)) (to, of, h) = rw to (natural-Reads n of h)
  number-Reads (integer (negsuc m)) (to, of, h) = rw to (negative-Reads m of h)
  number-Reads (double w) (h, n, e) = rw (double_bytes c w h n) (
      tagged 0xcb 8 w (λ w. c.of_double w) (λ b. unfold unpack_from unpack_tagged in refl)
        (omega arith) e)

  fixraw :
      (l : ℕ) (b : ReadBuffer)
      → l < 32
      → unpack_from c mb (unpack_anytype c mb f) (160 + l) b ≡ read_string mb l b
  unfolding unpack_from
  fixraw l b h = ground (arith, and_fixraw l h)

  long_string :
      (k : ℕ) (s : List ℕ)
      → length s < 256 ^ k
      → IsSliceable mb keying s
      → (claim k (from ((to_be k (length s) ++ s) ++ rest) (ofs + 1) keying) >>= λ (z, b).
          read_string mb (from_be 0 z) b)
        ≡ ok (read_as mb keying s, from rest (ofs + suc (length (to_be k (length s) ++ s))) keying)
  long_string k s h sliceable =
      rw
        (
          append_assoc (to_be k (length s)) s rest,
          claim-to_be k (length s) (s ++ rest) (ofs + 1) keying,
          from_be-to_be k (length s) h,
          read_string-append mb s rest (ofs + 1 + k) keying sliceable,
        )
        (ends _ (omega (arith, length-append (to_be k (length s)) s, length-to_be k (length s))))

  pub string-Reads :
      (s : List ℕ)
      → length s < 2 ^ 32
      → IsSliceable mb keying s
      → Reads (string_format s) (read_as mb keying s)
  unfolding unpack_anytype unpack_from unpack_tagged string_format
  string-Reads s h k = elim (Bool-cases (ltb (length s) 32)) [
    | inl a ↦ rw a (
        rw
          (
            fixraw (length s) (from (s ++ rest) (ofs + 1) keying) (ground arith),
            read_string-append mb s rest (ofs + 1) keying k,
          )
          (ends _ (omega arith)))
    | inr a ↦ elim (Bool-cases (ltb (length s) 65536)) [
      | inl b ↦ rw (a, b) (long_string 2 s (ground arith) k)
      | inr b ↦ rw (a, b) (long_string 4 s h k)
    ]
  ]

  fixarray :
      (l : ℕ) (b : ReadBuffer)
      → l < 16
      → unpack_from c mb (unpack_anytype c mb f) (144 + l) b
        ≡ unpack_array (unpack_anytype c mb f) l b
  unfolding unpack_from
  fixarray l b h = ground (arith, and_fixarray l h)

  pub fixmap :
      (l : ℕ) (b : ReadBuffer)
      → l < 16
      → unpack_from c mb (unpack_anytype c mb f) (128 + l) b
        ≡ unpack_map (unpack_anytype c mb f) l b
  unfolding unpack_from
  fixmap l b h = ground (arith, and_fixmap l h)

  sized :
      (g : ℕ → Reader Value) (k l : ℕ)
      → l < 256 ^ k
      → read_sized g k (from (to_be k l ++ rest) (ofs + 1) keying)
        ≡ g l (from rest (ofs + suc (length (to_be k l))) keying)
  sized g k l h =
      let e : ofs + suc (length (to_be k l)) ≡ ofs + 1 + k = omega (arith, length-to_be k l) in
      rw e (read_sized-to_be k l rest (ofs + 1) keying h g)

  abbrev pub Header : (ℕ → Reader Value) → List ℕ → ℕ → Type 0
  Header g bs l =
      unpack_anytype c mb (suc f) (from (bs ++ rest) ofs keying)
      ≡ g l (from rest (ofs + length bs) keying)

  -- The header of an array and of a map hands the count to the loop.
  pub array-Reads :
      (l : ℕ)
      → l < 2 ^ 31
      → Header (unpack_array (unpack_anytype c mb f)) (size_format 144 0xdc 0xdd l) l
  unfolding unpack_anytype unpack_from unpack_tagged size_format
  array-Reads l h = elim (Bool-cases (ltb l 16)) [
    | inl a ↦ rw a (fixarray l (from rest (ofs + 1) keying) (ground arith))
    | inr a ↦ elim (Bool-cases (ltb l 65536)) [
      | inl b ↦ rw (a, b) (sized (unpack_array (unpack_anytype c mb f)) 2 l (ground arith))
      | inr b ↦ rw (a, b) (sized (unpack_array (unpack_anytype c mb f)) 4 l (omega arith))
    ]
  ]

  pub map-Reads :
      (l : ℕ)
      → l < 2 ^ 31
      → Header (unpack_map (unpack_anytype c mb f)) (size_format 128 0xde 0xdf l) l
  unfolding unpack_anytype unpack_from unpack_tagged size_format
  map-Reads l h = elim (Bool-cases (ltb l 16)) [
    | inl a ↦ rw a (fixmap l (from rest (ofs + 1) keying) (ground arith))
    | inr a ↦ elim (Bool-cases (ltb l 65536)) [
      | inl b ↦ rw (a, b) (sized (unpack_map (unpack_anytype c mb f)) 2 l (ground arith))
      | inr b ↦ rw (a, b) (sized (unpack_map (unpack_anytype c mb f)) 4 l (omega arith))
    ]
  ]
