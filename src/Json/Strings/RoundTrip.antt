-- ===== src/Json/Strings/RoundTrip.antt =====
-- A string that `json_append_string` wrote, in `json_next_string_token`.
use lev.Json.Strings.Utf8.{hex4_read}
use lev.Json.Strings.{
  json_append_unicode_escape, string_step, append_utf8, char2escape, codepoint_to_utf8, escape_byte,
  escape_step, escape2char, hex_digit, append, JsonParse, escape_bytes, json_next_string_token,
  string_loop, closed, json_append_string,
}
use lev.Base.{
  ℕ, List, ◌≡◌, ◌∷◌, [], ◌++◌, arith, ◌<◌, ◌/◌, length, ◌%◌, suc, drop, ◌+◌, append-nil,
  append_assoc, refl, length-append, ◌∙◌, ap, drop-append, zero,
}

-- The \u escape of a control byte.
control_step :
    (c : ℕ) (tail : List ℕ)
    → c < 128
    → json_append_unicode_escape
        (92 ∷ b'u' ∷ 48 ∷ 48 ∷ hex_digit (c / 16) ∷ hex_digit (c % 16) ∷ tail)
      ≡ append (c ∷ []) 6
unfolding json_append_unicode_escape append_utf8 codepoint_to_utf8
control_step c tail h = ground (
  arith,
  hex4_read 0 0 (c / 16) (c % 16) tail (omega arith) (omega arith) (omega arith) (omega arith),
)

-- Reading what stands for one byte.
step-escape :
    (c : ℕ) (tail : List ℕ)
    → c < 256
    → string_step (escape_byte c ++ tail) ≡ append (c ∷ []) (length (escape_byte c))
unfolding string_step char2escape escape_byte escape_step escape2char
step-escape c tail h = ground (arith, control_step c tail)

-- Bytes.
abbrev pub AllBytes : List ℕ → Type 0
AllBytes [] = Unit
AllBytes (c ∷ cs) = (c < 256) × AllBytes cs

abbrev pub at : List ℕ → ℕ → JsonParse
at rest ofs = record { rest = rest; ofs = ofs }

escape_byte_pos : (c : ℕ) → 0 < length (escape_byte c)
unfolding escape_byte char2escape
escape_byte_pos c = ground arith

loop_close :
    (f : ℕ) (rest : List ℕ) (ofs : ℕ) (tmp : List ℕ)
    → string_loop (suc f) (at (34 ∷ rest) ofs) tmp ≡ closed tmp (at rest (ofs + 1))
unfolding string_loop string_step
loop_close f rest ofs tmp = refl

loop_append :
    (f : ℕ) (bytes tail : List ℕ) (k ofs : ℕ) (tmp : List ℕ)
    → string_step tail ≡ append bytes k
    → string_loop (suc f) (at tail ofs) tmp
      ≡ string_loop f (at (drop k tail) (ofs + k)) (tmp ++ bytes)
unfolding string_loop
loop_append f bytes tail k ofs tmp e = rw (e, string_loop) refl

loop-escape_bytes :
    (s rest : List ℕ) (f ofs : ℕ) (tmp : List ℕ)
    → AllBytes s
    → length (escape_bytes s) < f
    → string_loop f (at (escape_bytes s ++ 34 ∷ rest) ofs) tmp
      ≡ closed (tmp ++ s) (at rest (ofs + (length (escape_bytes s) + 1)))
unfolding escape_bytes
loop-escape_bytes s rest zero ofs tmp h fuel = absurd (omega arith)
loop-escape_bytes [] rest (suc f) ofs tmp h fuel = rw (append-nil tmp) (loop_close f rest ofs tmp)
loop-escape_bytes (c ∷ cs) rest (suc f) ofs tmp (small, h) fuel =
    let e = escape_byte c in
    let tail = escape_bytes cs ++ 34 ∷ rest in
    let n : length (e ++ escape_bytes cs) ≡ length e + length (escape_bytes cs) =
      length-append e (escape_bytes cs) in
    let less : length (escape_bytes cs) < f = omega (arith, n, escape_byte_pos c) in
    rw (append_assoc e (escape_bytes cs) (34 ∷ rest)) (
      loop_append f (c ∷ []) (e ++ tail) (length e) ofs tmp (step-escape c tail small)
      ∙ rw
          (
            drop-append e tail,
            loop-escape_bytes cs rest f (ofs + length e) (tmp ++ c ∷ []) h less,
            append_assoc tmp (c ∷ []) cs,
          )
          (ap (λ k. closed (tmp ++ c ∷ cs) (at rest k)) (omega (arith, n))))

pub next_string-append_string :
    (s rest : List ℕ) (ofs : ℕ)
    → AllBytes s
    → json_next_string_token (record { rest = json_append_string s ++ rest; ofs = ofs })
      ≡ closed s (record { rest = rest; ofs = ofs + length (json_append_string s) })
unfolding json_next_string_token json_append_string
next_string-append_string s rest ofs h =
    rw (append_assoc (escape_bytes s) (34 ∷ []) rest, length-append (escape_bytes s) (34 ∷ []))
      (loop-escape_bytes s rest _ (ofs + 1) [] h
          (omega (arith, length-append (escape_bytes s) (34 ∷ rest)))
        ∙ ap (λ k. closed s (at rest k)) (omega arith))
