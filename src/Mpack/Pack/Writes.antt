-- ===== src/Mpack/Pack/Writes.antt =====
-- What it is for a packer to write given bytes; the packers of scalars and sizes.
use lev.Base.Bytes.{or_fixraw, to_be}
use lev.Base.{
  ℕ, ◌+◌, ◌-◌, ◌≤◌, ◌<◌, ◌≡◌, false, List, [], ◌++◌, arith, length, is_empty, bit_or, Bool-cases,
  append-nil, length-append, append_assoc, leb, ltb, inl, refl, inr, ◌∷◌, lt→ltb,
}
use lev.Mpack.Writer.{
  WriteBuffer, Packer, capacity, mpwbuf_append, ◌then_add◌, write_nothing, pack_size, pack_string,
  raise, stringlen,
}
use lev.Mpack.Format.{size_format, string_format}

abbrev pub Clean : WriteBuffer → Type 0
Clean b = (b.err ≡ []) × (length b.data_used ≤ capacity)

-- On a clean buffer `p` appends exactly `bs` if they fit, and sets an error flag if they do not;
-- an error flag that is set stays set.
pub record Writes (p : Packer) (bs : List ℕ) : Type 0 where
  pub fits :
      (b : WriteBuffer)
      → Clean b
      → length b.data_used + length bs ≤ capacity
      → p b ≡ (record { data_used = b.data_used ++ bs; err = [] }, length bs)
  pub overflows :
      (b : WriteBuffer)
      → Clean b
      → capacity < length b.data_used + length bs
      → is_empty (p b).0.err ≡ false
  pub sticky : (b : WriteBuffer) → is_empty b.err ≡ false → is_empty (p b).0.err ≡ false

append-fits :
    (bs : List ℕ) (b : WriteBuffer)
    → Clean b
    → length b.data_used + length bs ≤ capacity
    → mpwbuf_append bs b ≡ (record { data_used = b.data_used ++ bs; err = [] }, length bs)
unfolding mpwbuf_append
append-fits bs b (e, l) h = rw e (ground arith)

append-overflows :
    (bs : List ℕ) (b : WriteBuffer)
    → Clean b
    → capacity < length b.data_used + length bs
    → is_empty (mpwbuf_append bs b).0.err ≡ false
unfolding mpwbuf_append
append-overflows bs b (e, l) h = ground arith

append-sticky :
    (bs : List ℕ) (b : WriteBuffer)
    → is_empty b.err ≡ false
    → is_empty (mpwbuf_append bs b).0.err ≡ false
unfolding mpwbuf_append
append-sticky bs b h = rw h h

pub append-Writes : (bs : List ℕ) → Writes (mpwbuf_append bs) bs
append-Writes bs = record {
  fits = append-fits bs;
  overflows = append-overflows bs;
  sticky = append-sticky bs;
}

nothing-clean :
    (b : WriteBuffer)
    → b.err ≡ []
    → ◌≡◌ {A = WriteBuffer × ℕ} (b, 0) (record { data_used = b.data_used; err = [] }, 0)
nothing-clean b e = ground arith

pub nothing-Writes : Writes write_nothing []
unfolding write_nothing
nothing-Writes = record {
  fits = λ b c h. rw append-nil (nothing-clean b c.0);
  overflows = λ b c h. absurd (omega arith);
  sticky = λ b h. h;
}

module _ {p q : Packer} {xs ys : List ℕ} (wp : Writes p xs) (wq : Writes q ys) where
  then-fits :
      (b : WriteBuffer)
      → Clean b
      → length b.data_used + length (xs ++ ys) ≤ capacity
      → (p then_add q) b
        ≡ (record { data_used = b.data_used ++ (xs ++ ys); err = [] }, length (xs ++ ys))
  unfolding ◌then_add◌
  then-fits b c h =
      let room : length b.data_used + length xs + length ys ≤ capacity =
        omega (arith, length-append xs ys) in
      let first = wp.fits b c (omega arith) in
      let middle : WriteBuffer = record { data_used = b.data_used ++ xs; err = [] } in
      let second =
        wq.fits middle (refl, omega (arith, length-append b.data_used xs))
          (omega (arith, length-append b.data_used xs)) in
      rw (first, second, append_assoc, length-append)

  then-overflows :
      (b : WriteBuffer)
      → Clean b
      → capacity < length b.data_used + length (xs ++ ys)
      → is_empty ((p then_add q) b).0.err ≡ false
  unfolding ◌then_add◌
  then-overflows b c h = elim (Bool-cases (leb (length b.data_used + length xs) capacity)) [
    | inl small ↦
        let room : length b.data_used + length xs ≤ capacity = ground arith in
        let middle : WriteBuffer = record { data_used = b.data_used ++ xs; err = [] } in
        rw (wp.fits b c room) (
          wq.overflows middle (refl, omega (arith, length-append b.data_used xs))
            (omega (arith, length-append b.data_used xs, length-append xs ys)))
    | inr large ↦ wq.sticky _ (wp.overflows b c (ground arith))
  ]

  pub then-Writes : Writes (p then_add q) (xs ++ ys)
  unfolding ◌then_add◌
  then-Writes = record {
    fits = then-fits;
    overflows = then-overflows;
    sticky = λ b h. wq.sticky _ (wp.sticky b h);
  }

pub size-Writes :
    (fix tag16 tag32 l : ℕ)
    → (l < 16 → bit_or fix l ≡ fix + l)
    → l < 4294967296 - 1
    → Writes (pack_size fix tag16 tag32 l) (size_format fix tag16 tag32 l)
unfolding pack_size size_format
size-Writes fix tag16 tag32 l or small = elim (Bool-cases (ltb l 16)) [
  | inl a ↦ rw (a, or (ground arith)) (append-Writes _)
  | inr a ↦ elim (Bool-cases (ltb l 65536)) [
    | inl b ↦ rw (a, b) (then-Writes (append-Writes (tag16 ∷ [])) (append-Writes (to_be 2 l)))
    | inr b ↦
        rw (a, b, lt→ltb _ _ small)
          (then-Writes (append-Writes (tag32 ∷ [])) (append-Writes (to_be 4 l)))
  ]
]

-- A string too long for the format sets an error flag, and is too long for the buffer too.
too_long-Writes : (bs : List ℕ) → capacity < length bs → Writes (raise stringlen) bs
unfolding raise
too_long-Writes bs h = record {
  fits = λ b c k. absurd (omega arith);
  overflows = λ b c k. refl;
  sticky = λ b k. refl;
}

pub string-Writes : (s : List ℕ) → Writes (pack_string s) (string_format s)
unfolding pack_string string_format
string-Writes s = elim (Bool-cases (ltb (length s) 32)) [
  | inl a ↦
      rw (a, or_fixraw (length s) (ground arith)) (then-Writes (append-Writes _) (append-Writes s))
  | inr a ↦ elim (Bool-cases (ltb (length s) 65536)) [
    | inl b ↦
        rw (a, b) (then-Writes (then-Writes (append-Writes _) (append-Writes _)) (append-Writes s))
    | inr b ↦ elim (Bool-cases (ltb (length s) (4294967296 - 1))) [
      | inl c ↦
          rw (a, b, c)
            (then-Writes (then-Writes (append-Writes _) (append-Writes _)) (append-Writes s))
      | inr c ↦
          let big : 4294967295 ≤ length s = ground arith in
          rw (a, b, c) (too_long-Writes _ (omega (arith, length-append (to_be 4 (length s)) s)))
    ]
  ]
]
