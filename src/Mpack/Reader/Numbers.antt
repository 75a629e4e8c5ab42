-- ===== src/Mpack/Reader/Numbers.antt =====
-- The reader on the parts that the writer makes: sizes, numbers and strings.
use lev.Mpack.Value.{Number, Value, number, string, buffer}
use lev.Base.Bytes.{to_be, length-to_be, from_be-to_be}
use lev.Mpack.Reader.{ReadBuffer, Reader, claim, read_number, ok, read_sized, Source, read_string}
use lev.Base.{
  ℕ, ◌+◌, ◌^◌, ◌<◌, ◌≡◌, Bool, true, false, Option, none, some, List, [], ◌∷◌, ◌++◌, arith, length,
  split_at-append,
}

abbrev pub from : List ℕ → ℕ → Bool → ReadBuffer
from rest ofs keying = record { rest = rest; ofs = ofs; map_keying = keying }

claim-append :
    (s rest : List ℕ) (ofs : ℕ) (keying : Bool)
    → claim (length s) (from (s ++ rest) ofs keying) ≡ ok (s, from rest (ofs + length s) keying)
unfolding claim
claim-append s rest ofs keying = rw (split_at-append s rest, claim)

pub claim-to_be :
    (k n : ℕ) (rest : List ℕ) (ofs : ℕ) (keying : Bool)
    → claim k (from (to_be k n ++ rest) ofs keying) ≡ ok (to_be k n, from rest (ofs + k) keying)
claim-to_be k n rest ofs keying =
    rw (length-to_be k n) at (claim-append (to_be k n) rest ofs keying)

module _ (k n : ℕ) (rest : List ℕ) (ofs : ℕ) (keying : Bool) (small : n < 256 ^ k) where
  pub read_number-to_be :
      (f : ℕ → Number)
      → read_number f k (from (to_be k n ++ rest) ofs keying)
        ≡ ok (number (f n), from rest (ofs + k) keying)
  unfolding read_number
  read_number-to_be f = rw (claim-to_be k n rest ofs keying, from_be-to_be k n small)

  pub read_sized-to_be :
      (f : ℕ → Reader Value)
      → read_sized f k (from (to_be k n ++ rest) ofs keying) ≡ f n (from rest (ofs + k) keying)
  unfolding read_sized
  read_sized-to_be f = rw (claim-to_be k n rest ofs keying, from_be-to_be k n small)

-- What a string reads as: a slice of the block if there is one and it is no key.
abbrev pub read_as : Option Source → Bool → List ℕ → Value
read_as none keying s = string s
read_as (some src) true s = string s
read_as (some src) false s = buffer s

-- A string that is to be a slice must not be empty.
abbrev pub IsSliceable : Option Source → Bool → List ℕ → Type 0
IsSliceable none keying s = Unit
IsSliceable (some src) true s = Unit
IsSliceable (some src) false s = 0 < length s

pub read_string-append :
    (mb : Option Source) (s rest : List ℕ) (ofs : ℕ) (keying : Bool)
    → IsSliceable mb keying s
    → read_string mb (length s) (from (s ++ rest) ofs keying)
      ≡ ok (read_as mb keying s, from rest (ofs + length s) keying)
unfolding read_string
read_string-append none s rest ofs keying h = rw (claim-append s rest ofs keying)
read_string-append (some src) s rest ofs true h = rw (claim-append s rest ofs true)
read_string-append (some src) [] rest ofs false h = absurd (omega arith)
read_string-append (some src) (x ∷ s) rest ofs false h =
    rw (claim-append (x ∷ s) rest ofs false) (ground arith)
