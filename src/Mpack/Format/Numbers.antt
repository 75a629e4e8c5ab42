-- ===== src/Mpack/Format/Numbers.antt =====
-- The bytes that the writer of src/lev_mpack.c makes of a number are its format.
use lev.Base.{ℕ, ◌-◌, ◌≡◌, refl, ltb, arith, Bool-cases, inl, inr, sym}
use lev.Base.Bytes.{to_be, byte_to_be, or_negative}
use lev.Base.Int.{ℤ, pos, negsuc}
use lev.Mpack.Value.{Conversions, Number, integer, double, is_inf, is_nan, is_positive}
use lev.Mpack.Writer.{integer_bytes, number_bytes}
use lev.Mpack.Format.{natural_format, negative_format, integer_format, number_format}

natural_lem : (n : ℕ) → integer_bytes (pos n) ≡ natural_format n
unfolding integer_bytes natural_format
natural_lem n = elim (Bool-cases (ltb n 128)) [
  | inl a ↦ rw a (sym (byte_to_be n (ground arith)))
  | inr a ↦ elim (Bool-cases (ltb n 256)) [
    | inl b ↦ rw (a, b, byte_to_be n (ground arith)) refl
    | inr b ↦ rw (a, b) refl
  ]
]

negative_lem : (m : ℕ) → integer_bytes (negsuc m) ≡ negative_format m
unfolding integer_bytes negative_format
negative_lem m = elim (Bool-cases (ltb m 32)) [
  | inl a ↦ rw (a, or_negative m (ground arith)) (sym (byte_to_be (255 - m) (omega arith)))
  | inr a ↦ elim (Bool-cases (ltb m 128)) [
    | inl b ↦ rw (a, b, byte_to_be (255 - m) (omega arith)) refl
    | inr b ↦ rw (a, b) refl
  ]
]

integer_lem : (z : ℤ) → integer_bytes z ≡ integer_format z
unfolding integer_format
integer_lem (pos n) = natural_lem n
integer_lem (negsuc m) = negative_lem m

pub number_bytes_lem : (c : Conversions) (n : Number) → number_bytes c n ≡ number_format c n
unfolding number_bytes number_format to_be
number_bytes_lem c (integer z) = integer_lem (c.to_long_long z)
number_bytes_lem c (double w) = elim (Bool-cases (is_inf w)) [
  | inl i ↦ elim (Bool-cases (is_positive w)) [ inl s ↦ rw (i, s) refl | inr s ↦ rw (i, s) refl ]
  | inr i ↦ elim (Bool-cases (is_nan w)) [ inl n ↦ rw (i, n) refl | inr n ↦ rw (i, n) refl ]
]
