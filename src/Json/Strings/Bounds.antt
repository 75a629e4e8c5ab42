-- ===== src/Json/Strings/Bounds.antt =====
-- How far a JSON string reaches, and how much of `tmp` it fills.
use mathlib.Core.Option.{none-ne-some}
use lev.Json.Strings.{
  ◌>>=◌, StringStep, append_utf8, decode_hex4, escape_step, hexdigit2int,
  json_append_unicode_escape, string_step, surrogate_pair, codepoint_to_utf8, peek, append, bad,
  escape2char, close, JsonParse, json_next_string_token, string_loop, StringToken, advance, closed,
  failed, no_fuel,
}
use lev.Base.{
  ℕ, List, Option, none, some, ◌≡◌, ◌∷◌, [], ◌++◌, arith, zero, suc, refl, inl, inr, ◌<◌, drop,
  length, ◌*◌, Bool-cases, ◌^◌, ◌≤◌, length-drop, ◌+◌, ◌%◌, ◌==◌, length-append,
}

-- A byte that is not the NUL behind the string stands in it.
peek_inside : (s : List ℕ) (i : ℕ) → 0 < peek s i → i < length s
peek_inside [] i h = absurd (omega arith)
peek_inside (c ∷ s) zero h = omega arith
peek_inside (c ∷ s) (suc i) h = omega (arith, peek_inside s i h)

digit_inside : (s : List ℕ) (i d : ℕ) → hexdigit2int (peek s i) ≡ some d → i < length s
digit_inside s i d e = peek_inside s i (go (peek s i) e)
  where
    go : (h : ℕ) → hexdigit2int h ≡ some d → 0 < h
    go zero p = absurd (none-ne-some d (unfold hexdigit2int in p))
    go (suc h) p = omega arith

-- Four digits are four bytes.
last_digit :
    (a b c d : Option ℕ) (u : ℕ)
    → (a >>= λ d₀.
        b >>= λ d₁. c >>= λ d₂. d >>= λ d₃. some (d₀ * 2 ^ 12 + d₁ * 2 ^ 8 + d₂ * 2 ^ 4 + d₃))
      ≡ some u
    → (v : ℕ) × (d ≡ some v)
last_digit none b c d u e = absurd (none-ne-some u e)
last_digit (some d₀) none c d u e = absurd (none-ne-some u e)
last_digit (some d₀) (some d₁) none d u e = absurd (none-ne-some u e)
last_digit (some d₀) (some d₁) (some d₂) none u e = absurd (none-ne-some u e)
last_digit (some d₀) (some d₁) (some d₂) (some d₃) u e = (d₃, refl)

hex4_inside : (s : List ℕ) (u : ℕ) → decode_hex4 s ≡ some u → 3 < length s
unfolding decode_hex4
hex4_inside s u e =
    let (v, p) =
      last_digit (hexdigit2int (peek s 0)) (hexdigit2int (peek s 1)) (hexdigit2int (peek s 2))
        (hexdigit2int (peek s 3)) u e in
    digit_inside s 3 v p

-- What a round may do: take a byte at least, no more than there are, and append no more bytes than it
-- takes.
abbrev pub StepFits : List ℕ → StringStep → Type 0
StepFits s close = 0 < length s
StepFits s (append bytes k) = (length bytes ≤ k) × (0 < k) × (k ≤ length s)
StepFits s (bad e) = Unit {0}

utf8_fits : (s : List ℕ) (cp k : ℕ) → 4 ≤ k → k ≤ length s → StepFits s (append_utf8 cp k)
unfolding append_utf8 codepoint_to_utf8
utf8_fits s cp k h l = ground arith

pair_fits : (s : List ℕ) (cp : ℕ) → StepFits s (surrogate_pair cp (drop 6 s))
unfolding surrogate_pair
pair_fits s cp = go (decode_hex4 (drop 2 (drop 6 s))) refl
  where
    go :
        (o : Option ℕ)
        → decode_hex4 (drop 2 (drop 6 s)) ≡ o
        → StepFits s (surrogate_pair cp (drop 6 s))
    go none e = ground arith
    go (some low) e =
        let l = hex4_inside (drop 2 (drop 6 s)) low e in
        let far : 12 ≤ length s = omega (arith, l, length-drop 2 (drop 6 s), length-drop 6 s) in
        ground (arith, utf8_fits s (cp % 2 ^ 10 * 2 ^ 10 + low % 2 ^ 10 + 0x10000) 12)

unicode_fits : (s : List ℕ) → StepFits s (json_append_unicode_escape s)
unfolding json_append_unicode_escape
unicode_fits s = go (decode_hex4 (drop 2 s)) refl
  where
    go : (o : Option ℕ) → decode_hex4 (drop 2 s) ≡ o → StepFits s (json_append_unicode_escape s)
    go none e = ground arith
    go (some u) e =
        let l = hex4_inside (drop 2 s) u e in
        let far : 6 ≤ length s = omega (arith, l, length-drop 2 s) in
        ground (arith, utf8_fits s u 6, pair_fits s u)

escape_nul : (c : ℕ) → 0 < escape2char c → 0 < c
unfolding escape2char
escape_nul zero h = absurd (omega arith)
escape_nul (suc c) h = omega arith

escape_fits : (s : List ℕ) → 0 < length s → StepFits s (escape_step s)
unfolding escape_step
escape_fits s h = elim (Bool-cases (escape2char (peek s 1) == b'u')) [
  | inl e ↦ rw (e, escape_step) (unicode_fits s)
  | inr e ↦ ground (arith, peek_inside s 1, escape_nul (peek s 1))
]

step-StepFits : (s : List ℕ) → StepFits s (string_step s)
unfolding string_step
step-StepFits s = ground (arith, peek_inside s 0, escape_fits s)

-- Where a token may leave the parser: further on in the same string.
abbrev pub Further : JsonParse → JsonParse → Type 0
Further json json' =
    (json'.ofs + length json'.rest ≡ json.ofs + length json.rest)
    × (length json'.rest ≤ length json.rest)

-- `n` bytes at least of the input stand for themselves or for bytes of `tmp`, and the quotes.
abbrev pub TokenFits : ℕ → JsonParse → StringToken → Type 0
TokenFits n json (closed t json') =
    Further json json' × (length t + (length json'.rest + n) ≤ length json.rest)
TokenFits n json (failed e json') = Further json json'
TokenFits n json no_fuel = ⊥

-- `tmp` is counted in.
abbrev LoopFits : ℕ → JsonParse → StringToken → Type 0
LoopFits filled json (closed t json') =
    Further json json' × (length t + (length json'.rest + 1) ≤ filled + length json.rest)
LoopFits filled json (failed e json') = Further json json'
LoopFits filled json no_fuel = ⊥

loop-LoopFits :
    (f : ℕ) (json : JsonParse) (tmp : List ℕ)
    → length json.rest < f
    → LoopFits (length tmp) json (string_loop f json tmp)
unfolding string_loop
loop-LoopFits zero json tmp h = absurd (omega arith)
loop-LoopFits (suc f) json tmp h =
    go (string_step json.rest) refl (step-StepFits json.rest) (λ j t p. loop-LoopFits f j t p)
  where
    weaker :
        (filled filled' : ℕ) (json json' : JsonParse) (r : StringToken)
        → Further json json'
        → filled' + length json'.rest ≤ filled + length json.rest
        → LoopFits filled' json' r
        → LoopFits filled json r
    weaker a a' j j' (closed t j'') g l k = omega arith
    weaker a a' j j' (failed e j'') g l k = omega arith
    weaker a a' j j' no_fuel g l k = k

    go :
        (s : StringStep)
        → string_step json.rest ≡ s
        → StepFits json.rest s
        → ((j : JsonParse) (t : List ℕ)
            → length j.rest < f
            → LoopFits (length t) j (string_loop f j t))
        → LoopFits (length tmp) json (string_loop (suc f) json tmp)
    go close e p ih = rw (e, string_loop) (omega (arith, length-drop 1 json.rest))
    go (append bytes k) e p ih =
        rw (e, string_loop)
          (weaker (length tmp) (length (tmp ++ bytes)) json (advance k json)
            (string_loop f (advance k json) (tmp ++ bytes)) (omega (arith, length-drop k json.rest))
            (omega (arith, length-drop k json.rest, length-append tmp bytes))
            (ih (advance k json) (tmp ++ bytes) (omega (arith, length-drop k json.rest))))
    go (bad x) e p ih = rw (e, string_loop) (omega arith)

-- A string token always ends, inside the input and further on. With its two quotes it takes at least
-- two bytes more of the input than it puts into `tmp`.
pub next_string-TokenFits :
    (json : JsonParse) → 0 < length json.rest → TokenFits 2 json (json_next_string_token json)
unfolding json_next_string_token
next_string-TokenFits json h = go (string_loop (suc (length json.rest)) (advance 1 json) []) (
    loop-LoopFits (suc (length json.rest)) (advance 1 json) []
      (omega (arith, length-drop 1 json.rest)))
  where
    go : (r : StringToken) → LoopFits 0 (advance 1 json) r → TokenFits 2 json r
    go (closed t j) k = omega (arith, length-drop 1 json.rest)
    go (failed e j) k = omega (arith, length-drop 1 json.rest)
    go no_fuel k = k
