-- ===== src/Udp/Address.antt =====
-- `push_sockaddr` of src/lev_new_udp.c.
use lev.Base.{
  ℕ, ◌+◌, ◌-◌, ◌*◌, ◌%◌, ◌<◌, ◌≡◌, refl, List, [], ◌∷◌, bit_or, ltb, if◌then◌else◌, arith, ◌^◌,
  ==_iff, Bool-cases, ◌/◌, all_below_sound, inl, inr, ◌==◌, map,
}
use lev.Base.Int.{ℤ, pos, negsuc}

-- The first six of `sa_data`, as bytes; C reads them as signed `char`.
pub record Sockaddr : Type 0 where
  pub data0 : ℕ
  pub data1 : ℕ
  pub data2 : ℕ
  pub data3 : ℕ
  pub data4 : ℕ
  pub data5 : ℕ

-- `(unsigned)` of a signed `char`.
unfoldable pub unsigned : ℕ → ℕ
unsigned b = if ltb b 128 then b else 2 ^ 32 - 256 + b

-- `int` of 32 bits, as `%d` reads it too.
unfoldable pub int : ℕ → ℤ
int w = if ltb w (2 ^ 31) then pos w else negsuc (2 ^ 32 - 1 - w)

-- The numbers of the text "%d.%d.%d.%d", and the port.
unfoldable pub push_sockaddr : Sockaddr → List ℤ × ℤ
push_sockaddr addr = (
  int (unsigned addr.data2)
      ∷ int (unsigned addr.data3)
      ∷ int (unsigned addr.data4)
      ∷ int (unsigned addr.data5)
      ∷ [],
  int (bit_or (unsigned addr.data0 * 256 % 2 ^ 32) (unsigned addr.data1)),
)

-- A byte as a signed number.
unfoldable pub signed : ℕ → ℤ
signed b = if ltb b 128 then pos b else negsuc (255 - b)

-- The port as a signed number of 32 bits, where the bits of the second byte's sign cover the first.
abbrev pub signed_port : ℕ → ℕ → ℤ
signed_port high low =
    if ltb low 128
    then (if ltb high 128 then pos (high * 256 + low) else negsuc (65535 - (high * 256 + low)))
    else negsuc (255 - low)

int-unsigned : (b : ℕ) → b < 256 → int (unsigned b) ≡ signed b
unfolding int unsigned signed
int-unsigned b l = elim (Bool-cases (ltb b 128)) [
  | inl e ↦ rw e (ground arith)
  | inr e ↦ rw e (ground arith)
]

-- The word of the port, for both bytes at once.
abbrev port_word : ℕ → ℕ
port_word d = bit_or (unsigned (d / 256) * 256 % 2 ^ 32) (unsigned (d % 256))

abbrev word_of : ℕ → ℕ
word_of d =
    if ltb (d % 256) 128
    then (if ltb (d / 256) 128 then d else 2 ^ 32 - 65536 + d)
    else 2 ^ 32 - 256 + d % 256

port_word_lem : (d : ℕ) → d < 65536 → port_word d ≡ word_of d
unfolding unsigned
port_word_lem d l = (==_iff _ _).0 (all_below_sound 65536 (λ d. port_word d == word_of d) d refl l)

int-word_of :
    (high low : ℕ)
    → high < 256
    → low < 256
    → int (word_of (high * 256 + low)) ≡ signed_port high low
unfolding int
int-word_of high low h l =
    let d : (high * 256 + low) / 256 ≡ high = omega arith in
    let m : (high * 256 + low) % 256 ≡ low = omega arith in rw (d, m) (ground arith)

-- What `push_sockaddr` pushes are the bytes of the address as signed numbers, and a port that is signed
-- too: the true numbers exactly where each byte is below 128. A port whose low byte is 128 or more
-- comes out as that byte less 256, whatever the high byte is; one whose high byte alone is 128 or more,
-- as the port less 65536.
pub push_sockaddr-signed :
    (a : Sockaddr)
    → a.data0 < 256
    → a.data1 < 256
    → a.data2 < 256
    → a.data3 < 256
    → a.data4 < 256
    → a.data5 < 256
    → push_sockaddr a
      ≡ (map signed (a.data2 ∷ a.data3 ∷ a.data4 ∷ a.data5 ∷ []), signed_port a.data0 a.data1)
unfolding push_sockaddr
push_sockaddr-signed a l0 l1 l2 l3 l4 l5 =
    let d : (a.data0 * 256 + a.data1) / 256 ≡ a.data0 = omega arith in
    let m : (a.data0 * 256 + a.data1) % 256 ≡ a.data1 = omega arith in
    let w : bit_or (unsigned a.data0 * 256 % 2 ^ 32) (unsigned a.data1)
        ≡ port_word (a.data0 * 256 + a.data1) =
      rw (d, m) refl in
    let w' : port_word (a.data0 * 256 + a.data1) ≡ word_of (a.data0 * 256 + a.data1) =
      port_word_lem (a.data0 * 256 + a.data1) (omega arith) in
    rw
      (
        int-unsigned a.data2 l2,
        int-unsigned a.data3 l3,
        int-unsigned a.data4 l4,
        int-unsigned a.data5 l5,
        w,
        w',
        int-word_of a.data0 a.data1 l0 l1,
      )
      refl
