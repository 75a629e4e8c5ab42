-- ===== src/Fs/Permission.antt =====
-- The permission of a file, as `stat` gives it and `chmod` takes it.
use lev.Base.{ℕ, ◌%◌, ◌<◌, ◌≡◌, refl, ◌==◌, ==_iff, all_below_sound, ◌∷◌, arith, bit_and, ◌^◌, ◌-◌}
use lev.Fs.Modes.{mode_of, strtol, octal_digits}
use lev.Fs.Results.{permission_text, octal, s_ifmt}

permission_bits : (mode : ℕ) → mode < 65536 → bit_and mode (2 ^ 32 - 1 - s_ifmt) ≡ mode % 4096
permission_bits mode l =
    (==_iff _ _).0
      (all_below_sound 65536 (λ m. bit_and m (2 ^ 32 - 1 - s_ifmt) == m % 4096) mode refl l)

mode_of-octal : (n : ℕ) → n < 4096 → mode_of (b'0' ∷ octal 22 n) ≡ n
unfolding mode_of strtol octal_digits
mode_of-octal n l =
    (==_iff _ _).0 (all_below_sound 4096 (λ m. mode_of (b'0' ∷ octal 22 m) == m) n refl l)

-- The text that `stat` gives for a mode of 16 bits is one that `chmod`, `mkdir` and `open` read as the
-- permission bits of that mode.
pub mode_of-permission_text :
    (mode : ℕ) → mode < 65536 → mode_of (permission_text mode) ≡ mode % 4096
unfolding permission_text
mode_of-permission_text mode l =
    rw (permission_bits mode l) (mode_of-octal (mode % 4096) (omega arith))
