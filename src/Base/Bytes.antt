-- ===== src/Base/Bytes.antt =====
-- Numbers as bytes in network order, and the bit masks on one byte as arithmetic.
use lev.Base.{
  ℕ, zero, suc, ◌+◌, ◌-◌, ◌*◌, ◌/◌, ◌%◌, ◌^◌, ◌<◌, ◌≡◌, refl, ◌∙◌, List, [], ◌∷◌, ◌++◌, arith,
  bit_and, bit_or, length, length-append, all_below_sound, ◌==◌, ==_iff,
}
use native.Mathlib.Nat.{pow-suc}

-- The `k` low bytes of `n`, the highest first: what `htons`, `htonl` and `htonll` put into memory.
unfoldable pub to_be : ℕ → ℕ → List ℕ
to_be zero n = []
to_be (suc k) n = to_be k (n / 256) ++ (n % 256) ∷ []

-- The number that bytes stand for, the highest first: `ntohs`, `ntohl`, `ntohll` of a load.
unfoldable pub from_be : ℕ → List ℕ → ℕ
from_be acc [] = acc
from_be acc (b ∷ bs) = from_be (acc * 256 + b) bs

pub byte_to_be : (n : ℕ) → n < 256 → to_be 1 n ≡ n ∷ []
unfolding to_be
byte_to_be n h = ground arith

pub length-to_be : (k n : ℕ) → length (to_be k n) ≡ k
unfolding to_be
length-to_be zero n = refl
length-to_be (suc k) n =
    length-append (to_be k (n / 256)) (n % 256 ∷ []) ∙ omega (arith, length-to_be k (n / 256))

from_be-append :
    (acc : ℕ) (xs : List ℕ) (b : ℕ) → from_be acc (xs ++ b ∷ []) ≡ from_be acc xs * 256 + b
unfolding from_be
from_be-append acc [] b = refl
from_be-append acc (x ∷ xs) b = from_be-append (acc * 256 + x) xs b

pub from_be-to_be : (k n : ℕ) → n < 256 ^ k → from_be 0 (to_be k n) ≡ n
unfolding to_be
from_be-to_be zero n h = unfold from_be in omega arith
from_be-to_be (suc k) n h =
    from_be-append 0 (to_be k (n / 256)) (n % 256)
    ∙ omega (arith, from_be-to_be k (n / 256) (omega (arith, pow-suc 256 k)))

pub or_fixmap : (n : ℕ) → n < 16 → bit_or 0x80 n ≡ 128 + n
or_fixmap n h = (==_iff _ _).0 (all_below_sound 16 (λ n. bit_or 0x80 n == 128 + n) n refl h)

pub or_fixarray : (n : ℕ) → n < 16 → bit_or 0x90 n ≡ 144 + n
or_fixarray n h = (==_iff _ _).0 (all_below_sound 16 (λ n. bit_or 0x90 n == 144 + n) n refl h)

pub or_fixraw : (n : ℕ) → n < 32 → bit_or 0xa0 n ≡ 160 + n
or_fixraw n h = (==_iff _ _).0 (all_below_sound 32 (λ n. bit_or 0xa0 n == 160 + n) n refl h)

pub or_negative : (n : ℕ) → n < 32 → bit_or 0xe0 (255 - n) ≡ 255 - n
or_negative n h =
    (==_iff _ _).0 (all_below_sound 32 (λ n. bit_or 0xe0 (255 - n) == 255 - n) n refl h)

pub and_fixmap : (n : ℕ) → n < 16 → bit_and (128 + n) 0xf ≡ n
and_fixmap n h = (==_iff _ _).0 (all_below_sound 16 (λ n. bit_and (128 + n) 0xf == n) n refl h)

pub and_fixarray : (n : ℕ) → n < 16 → bit_and (144 + n) 0xf ≡ n
and_fixarray n h = (==_iff _ _).0 (all_below_sound 16 (λ n. bit_and (144 + n) 0xf == n) n refl h)

pub and_fixraw : (n : ℕ) → n < 32 → bit_and (160 + n) 0x1f ≡ n
and_fixraw n h = (==_iff _ _).0 (all_below_sound 32 (λ n. bit_and (160 + n) 0x1f == n) n refl h)
