-- ===== src/Mpack/Unpacker/Feeding.antt =====
-- Feeding the unpacker in pieces.
use lev.Mpack.Unpacker.Buffered.{on_buffer, loop-buffered, outcome_buffered}
use lev.Mpack.Unpacker.Parts.{Splits, more_behind, round-append, round-Splits}
use lev.Mpack.Unpacker.Bounds.{
  Rounds, feed_loop-enough, goes_on, Keeps-depth, feed_round-Rounds, loop_done, IsBounded, Keeps,
  kept, loop-Keeps,
}
use mathlib.Core.Path.{subst}
use mathlib.Core.Option.{none-ne-some, some-injective}
use lev.Base.{
  ℕ, zero, suc, ◌+◌, ◌≤◌, ◌≡◌, refl, sym, ap, ◌∙◌, true, false, Option, none, some, List, [], ◌∷◌,
  ◌++◌, ltb, length, arith, length-append, Bool-cases, inl, inr, ◌<◌, append-nil, ◌⊎◌, append_assoc,
}
use lev.Mpack.Unpacker.{
  Unpacker, feed_round, feed_loop, unpacker_feed, continue, container_needs_bytes, max_stack,
}

crossing_cases :
    (need : Option ℕ) (l : ℕ)
    → ((n : ℕ) × (need ≡ some (suc n)) × (l < n)) ⊎ ((n : ℕ) → need ≡ some (suc n) → n ≤ l)
crossing_cases none l = inr λ n e. absurd (none-ne-some _ e)
crossing_cases (some zero) l = inr λ n e. absurd (let f = some-injective _ _ e in omega (arith, f))
crossing_cases (some (suc m)) l = elim (Bool-cases (ltb l m)) [
  | inl e ↦ inl (m, refl, ground arith)
  | inr e ↦ inr λ n k. let f = some-injective _ _ k in ground (arith, f)
]

Rounds-some :
    {u : Unpacker} {n : ℕ} {p : List ℕ} {v : Unpacker}
    → Rounds u n (some (p, v))
    → (length p ≤ n) × (length v.stack ≤ max_stack)
Rounds-some (goes_on l k) = (l, Keeps-depth k)

-- The rounds behind one that does not need what comes later.
rest-append :
    (p b : List ℕ) (u v : Unpacker) (o : Option (List ℕ × Unpacker))
    → Rounds u (length p) o
    → ((q : List ℕ) (w : Unpacker)
        → length q ≤ length p
        → length w.stack ≤ max_stack
        → feed_loop (length q) q w ≡ (v, true)
        → feed_loop (length (q ++ b)) (q ++ b) w ≡ feed_loop (length b) b v)
    → continue (feed_loop (length p)) u o ≡ (v, true)
    → continue (feed_loop (length (p ++ b))) u (more_behind b o) ≡ feed_loop (length b) b v
rest-append p b u v none rounds ih h = let no : false ≡ true = ap (λ x. x.1) h in absurd (cc)
rest-append p b u v (some (q, w)) rounds ih h =
    let (l, d) = Rounds-some rounds in
    feed_loop-enough (length (p ++ b)) (length (q ++ b)) (q ++ b) w
      (omega (arith, length-append p b, length-append q b)) (omega arith) d
    ∙ ih q w l d (feed_loop-enough (length q) (length p) q w (omega arith) l d ∙ h)

feed_round-append :
    (ch : ℕ) (p b : List ℕ) (u : Unpacker)
    → ((n : ℕ) → container_needs_bytes u.stack ≡ some (suc n) → n ≤ length p)
    → feed_round ch (p ++ b) u ≡ more_behind b (feed_round ch p u)
unfolding feed_round
feed_round-append ch p b u fits = round-append ch p b u (container_needs_bytes u.stack) fits

across :
    (ch : ℕ) (p : List ℕ) (c : ℕ) (q : List ℕ) (u v : Unpacker) (m : ℕ)
    → length u.stack ≤ max_stack
    → container_needs_bytes u.stack ≡ some (suc m)
    → length p < m
    → feed_loop (length (ch ∷ p)) (ch ∷ p) u ≡ (v, true)
    → feed_loop (length (ch ∷ p ++ c ∷ q)) (ch ∷ p ++ c ∷ q) u
      ≡ feed_loop (length (c ∷ q)) (c ∷ q) v
unfolding feed_loop Splits
across ch p c q u v m d need short h =
    let (u₁, w, r, first, whole, second) = round-Splits ch p (c ∷ q) u m need short in
    let (again, l) = second c q refl in
    let h' : feed_loop (length p) [] u₁ ≡ (v, true) = rw first at h in
    let e : u₁ ≡ v = ap (λ x. x.0) (sym (loop_done (length p) u₁) ∙ h') in
    let rounds : Rounds u (length (p ++ c ∷ q)) (some (r, w)) =
      subst (Rounds u (length (p ++ c ∷ q))) whole (feed_round-Rounds ch (p ++ c ∷ q) u d) in
    rw (sym e, whole, again)
      (feed_loop-enough (length (p ++ c ∷ q)) (length q) r w (Rounds-some rounds).0 l
        (Rounds-some rounds).1)

loop-append :
    (n : ℕ) (a b : List ℕ) (u v : Unpacker)
    → length a ≤ n
    → length u.stack ≤ max_stack
    → feed_loop (length a) a u ≡ (v, true)
    → feed_loop (length (a ++ b)) (a ++ b) u ≡ feed_loop (length b) b v
unfolding feed_loop
loop-append n a [] u v l d h = rw (append-nil a) h
loop-append n [] (c ∷ q) u v l d h = let e : u ≡ v = ap (λ x. x.0) h in rw e refl
loop-append zero (ch ∷ p) (c ∷ q) u v l d h = absurd (omega arith)
loop-append (suc n) (ch ∷ p) (c ∷ q) u v l d h =
    elim (crossing_cases (container_needs_bytes u.stack) (length p)) [
      | inl (m, need, short) ↦ across ch p c q u v m d need short h
      | inr fits ↦ rw (feed_round-append ch p (c ∷ q) u fits) (
          rest-append p (c ∷ q) u v (feed_round ch p u) (feed_round-Rounds ch p u d)
            (λ r w l' d' h'. loop-append n r (c ∷ q) w v (omega (arith, l, l')) d' h') h)
    ]

Keeps-buffer : {u v : Unpacker} → Keeps u (some v) → (v.buf ≡ u.buf) × (v.size ≡ u.size)
Keeps-buffer (kept a b c) = (b, c)

fed :
    (u : Unpacker) (p : List ℕ)
    → length u.buf + length p ≤ u.size
    → unpacker_feed u p ≡ feed_loop (length p) p (on_buffer (u.buf ++ p) u)
unfolding unpacker_feed
fed u p l = let room : ltb u.size (length u.buf + length p) ≡ false = ground arith in rw room refl

-- Bytes that come in two parts are fed like the same bytes at once, wherever they are cut, also inside
-- of a size or of the data of a value: if the state is within its bounds, the buffer has room for both
-- and the first part is not refused, then the state after the second part, and whether that was
-- refused, are the same.
pub feed-append :
    (u v : Unpacker) (a b : List ℕ)
    → IsBounded u
    → length u.buf + length (a ++ b) ≤ u.size
    → unpacker_feed u a ≡ (v, true)
    → unpacker_feed u (a ++ b) ≡ unpacker_feed v b
feed-append u v a b k room h =
    let B : List ℕ = u.buf ++ (a ++ b) in
    let h' : feed_loop (length a) a (on_buffer (u.buf ++ a) u) ≡ (v, true) =
      sym (fed u a (omega (arith, length-append a b))) ∙ h in
    let keeps : Keeps (on_buffer (u.buf ++ a) u) (some v) =
      subst (λ x. Keeps (on_buffer (u.buf ++ a) u) (some x.0)) h'
        (loop-Keeps (length a) a (on_buffer (u.buf ++ a) u) k.depth) in
    let (buf, size) = Keeps-buffer keeps in
    let same : v.buf ++ b ≡ u.buf ++ (a ++ b) = ap (λ x. x ++ b) buf ∙ append_assoc u.buf a b in
    let first : feed_loop (length a) a (on_buffer (u.buf ++ (a ++ b)) u)
        ≡ (on_buffer (u.buf ++ (a ++ b)) v, true) =
      loop-buffered (u.buf ++ (a ++ b)) (length a) a (on_buffer (u.buf ++ a) u)
      ∙ ap (outcome_buffered (u.buf ++ (a ++ b))) h' in
    let second : unpacker_feed v b ≡ feed_loop (length b) b (on_buffer (u.buf ++ (a ++ b)) v) =
      fed v b (omega (arith, room, size, ap length buf, length-append u.buf a, length-append a b))
      ∙ ap (λ x. feed_loop (length b) b (on_buffer x v)) same in
    fed u (a ++ b) room
    ∙ loop-append (length a) a b (on_buffer (u.buf ++ (a ++ b)) u) (on_buffer (u.buf ++ (a ++ b)) v)
        (omega arith) k.depth first
    ∙ sym second
