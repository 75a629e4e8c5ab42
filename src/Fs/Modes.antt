-- ===== src/Fs/Modes.antt =====
-- The texts for flags and modes: `fs_to_flags`, and `strtol` to base 8 as the functions of
-- src/lev_new_fs.c call it. The values of the constants are Linux's.
use lev.Base.{
  ℕ, zero, suc, ◌+◌, ◌-◌, ◌*◌, ◌%◌, ◌^◌, List, [], ◌∷◌, Option, none, some, Bool, true, false, ◌==◌,
  ◌&&◌, ◌||◌, leb, if◌then◌else◌,
}
use lev.Base.Int.{ℤ, pos, negsuc}

-- Texts are equal, as `strcmp` has it.
abbrev pub same_text : List ℕ → List ℕ → Bool
same_text [] [] = true
same_text [] (b ∷ t) = false
same_text (a ∷ s) [] = false
same_text (a ∷ s) (b ∷ t) = a == b && same_text s t

abbrev pub o_rdonly : ℕ
o_rdonly = 0

abbrev pub o_wronly : ℕ
o_wronly = 1

abbrev pub o_rdwr : ℕ
o_rdwr = 2

abbrev pub o_creat : ℕ
o_creat = 0x40

abbrev pub o_trunc : ℕ
o_trunc = 0x200

abbrev pub o_append : ℕ
o_append = 0x400

abbrev pub o_sync : ℕ
o_sync = 0x101000

abbrev pub mode_mappings : List (List ℕ × ℕ)
mode_mappings =
    (b'r' ∷ [], o_rdonly)
    ∷ (b'w' ∷ [], o_wronly + o_creat + o_trunc)
    ∷ (b'a' ∷ [], o_wronly + o_creat + o_append)
    ∷ (b'r' ∷ b'+' ∷ [], o_rdwr)
    ∷ (b'w' ∷ b'+' ∷ [], o_rdwr + o_creat + o_trunc)
    ∷ (b'a' ∷ b'+' ∷ [], o_rdwr + o_creat + o_append)
    ∷ (b'r' ∷ b's' ∷ [], o_rdonly + o_sync)
    ∷ (b'r' ∷ b's' ∷ b'+' ∷ [], o_rdwr + o_sync)
    ∷ []

-- `none` is -1, for which `fs_checkflags` raises an error.
abbrev pub mapped : List ℕ → List (List ℕ × ℕ) → Option ℕ
mapped flags [] = none
mapped flags ((name, value) ∷ ms) = if same_text flags name then some value else mapped flags ms

unfoldable pub fs_to_flags : List ℕ → Option ℕ
fs_to_flags flags = mapped flags mode_mappings

abbrev pub long_max : ℕ
long_max = 2 ^ 63 - 1

-- The digits of a number to base 8, up to the first other character.
unfoldable pub octal_digits : ℕ → List ℕ → ℕ
octal_digits n [] = n
octal_digits n (c ∷ s) = if leb b'0' c && leb c b'7' then octal_digits (n * 8 + (c - b'0')) s else n

abbrev pub is_space : ℕ → Bool
is_space c = c == b' ' || leb 9 c && leb c 13

abbrev pub at_most : ℕ → ℕ → ℕ
at_most m n = if leb n m then n else m

-- After the blanks: a sign, and the number, which stays inside of `long`.
abbrev pub signed_digits : List ℕ → ℤ
signed_digits [] = pos 0
signed_digits (c ∷ s) =
    if c == b'-'
    then negated (at_most (suc long_max) (octal_digits 0 s))
    else (if c == b'+'
        then pos (at_most long_max (octal_digits 0 s))
        else pos (at_most long_max (octal_digits 0 (c ∷ s))))
  where
    negated : ℕ → ℤ
    negated zero = pos 0
    negated (suc n) = negsuc n

unfoldable pub strtol : List ℕ → ℤ
strtol [] = pos 0
strtol (c ∷ s) = let rest = strtol s in if is_space c then rest else signed_digits (c ∷ s)

-- `int mode`, as the word of 32 bits that libuv passes on.
abbrev pub low_word : ℤ → ℕ
low_word (pos n) = n % 2 ^ 32
low_word (negsuc n) = 2 ^ 32 - 1 - n % 2 ^ 32

unfoldable pub mode_of : List ℕ → ℕ
mode_of mode_str = low_word (strtol mode_str)
