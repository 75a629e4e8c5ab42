-- ===== src/Mpack/Unpacker/Bounds.antt =====
-- The sizes of the unpacker's stack and buffer, and the rounds of its loop.
use lev.Mpack.Unpacker.{
  Unpacker, progress_stack, unpacker_progress, unpacker_progress_datasize, unpacker_push,
  ContainerType, StackEntry, max_stack, stackent_init, sizesize_of, feed_loop, feed_tagged,
  feed_value, progress_top, unpacker_feed, continue, feed_round, round_for, with_rest,
  container_needs_bytes,
}
use lev.Base.{
  ℕ, zero, suc, ◌+◌, ◌-◌, ◌*◌, ◌≤◌, ◌≡◌, inl, inr, refl, sym, ap, ◌∙◌, Bool, true, false, Option,
  none, some, List, [], ◌∷◌, ◌++◌, ltb, leb, ◌==◌, if◌then◌else◌, length, bit_and, ◌&&◌, drop,
  arith, length-append, length-drop, Bool-cases,
}
use Prim.Native.Nat.{min}

-- 256 entries of `stack` are enough, and the used bytes lie in `buf`.
pub record IsBounded (u : Unpacker) : Type 0 where
  pub depth : length u.stack ≤ max_stack
  pub used : length u.buf ≤ u.size

-- What a step may do: the stack stays within its bound, and the buffer is not touched.
pub data Keeps (u : Unpacker) : Option Unpacker → Type 0 where
  refused : Keeps u none
  kept :
      {v : Unpacker}
      → length v.stack ≤ max_stack
      → v.buf ≡ u.buf
      → v.size ≡ u.size
      → Keeps u (some v)

progress_stack-le : (st : List StackEntry) (ch : ℕ) → length (progress_stack st ch) ≤ length st
unfolding progress_stack
progress_stack-le [] ch = omega arith
progress_stack-le (e ∷ es) ch = ground (arith, progress_stack-le es ch)

progress-Keeps :
    (u : Unpacker) (ch : ℕ) → length u.stack ≤ max_stack → Keeps u (some (unpacker_progress u ch))
unfolding unpacker_progress
progress-Keeps u ch h = kept (omega (arith, progress_stack-le u.stack ch)) refl refl

if-Keeps :
    {u : Unpacker} (b : Bool) {x y : Option Unpacker}
    → (b ≡ true → Keeps u x)
    → (b ≡ false → Keeps u y)
    → Keeps u (if b then x else y)
if-Keeps true hx hy = hx refl
if-Keeps false hx hy = hy refl

push-Keeps :
    (u : Unpacker) (t : ContainerType) (expect : ℕ)
    → length u.stack ≤ max_stack
    → Keeps u (unpacker_push u t expect)
unfolding unpacker_push
push-Keeps u t expect h =
    if-Keeps (leb max_stack (length u.stack)) (λ full. refused)
      λ room.
        let u' : Unpacker = record u { stack = stackent_init t expect ∷ u.stack } in
        let deep : length u'.stack ≤ max_stack = ground arith in
        elim (Bool-cases (sizesize_of t == 0 && expect == 0)) [
          | inl e ↦ rw e (same_buffer (progress-Keeps u' 0 deep))
          | inr e ↦ rw e (kept deep refl refl)
        ]
  where
    same_buffer :
        {o : Option Unpacker}
        → Keeps (record u { stack = stackent_init t expect ∷ u.stack }) o
        → Keeps u o
    same_buffer refused = refused
    same_buffer (kept a b c) = kept a b c

top-Keeps :
    (u : Unpacker) (progress : ℕ) (st : List StackEntry)
    → length st ≤ max_stack
    → Keeps u (progress_top u progress st)
unfolding progress_top
top-Keeps u progress [] h = refused
top-Keeps u progress (top ∷ es) h =
    if-Keeps (ltb (top.expect - top.sofar) progress) (λ a. refused)
      λ a.
        if-Keeps (top.sofar + progress == top.expect)
          (λ b. same_buffer (
            progress-Keeps
              (record u { stack = record top { sofar = top.sofar + progress - 1 } ∷ es }) 0 h))
          (λ b. kept h refl refl)
  where
    same_buffer :
        {o : Option Unpacker}
        → Keeps (record u { stack = record top { sofar = top.sofar + progress - 1 } ∷ es }) o
        → Keeps u o
    same_buffer refused = refused
    same_buffer (kept a b c) = kept a b c

tagged-Keeps : (u : Unpacker) (ch : ℕ) → length u.stack ≤ max_stack → Keeps u (feed_tagged u ch)
unfolding feed_tagged
tagged-Keeps u ch h =
    (if-Keeps (ch == 0xca) (λ e. push-Keeps u ContainerType.float (4) h)
      (λ e.
        (if-Keeps (ch == 0xcb) (λ e. push-Keeps u ContainerType.double (8) h)
          (λ e.
            (if-Keeps (ch == 0xcc) (λ e. push-Keeps u ContainerType.uint8 (1) h)
              (λ e.
                (if-Keeps (ch == 0xcd) (λ e. push-Keeps u ContainerType.uint16 (2) h)
                  (λ e.
                    (if-Keeps (ch == 0xce) (λ e. push-Keeps u ContainerType.uint32 (4) h)
                      (λ e.
                        (if-Keeps (ch == 0xcf) (λ e. push-Keeps u ContainerType.uint64 (8) h)
                          (λ e.
                            (if-Keeps (ch == 0xd0) (λ e. push-Keeps u ContainerType.int8 (1) h)
                              (λ e.
                                (if-Keeps (ch == 0xd1) (λ e. push-Keeps u ContainerType.int16 (2) h)
                                  (λ e.
                                    (if-Keeps (ch == 0xd2)
                                      (λ e. push-Keeps u ContainerType.int32 (4) h)
                                      (λ e.
                                        (if-Keeps (ch == 0xd3)
                                          (λ e. push-Keeps u ContainerType.int64 (8) h)
                                          (λ e.
                                            (if-Keeps (leb ch 0xd9) (λ e. refused)
                                              (λ e.
                                                (if-Keeps (ch == 0xda)
                                                  (λ e. push-Keeps u ContainerType.raw16 (0) h)
                                                  (λ e.
                                                    (if-Keeps (ch == 0xdb)
                                                      (λ e. push-Keeps u ContainerType.raw32 (0) h)
                                                      (λ e.
                                                        (if-Keeps (ch == 0xdc)
                                                          (λ e.
                                                            push-Keeps u ContainerType.array16 (0)
                                                            h)
                                                          (λ e.
                                                            (if-Keeps (ch == 0xdd)
                                                            (λ e.
                                                            push-Keeps u ContainerType.array32 (0)
                                                            h)
                                                            (λ e.
                                                            (if-Keeps (ch == 0xde)
                                                            (λ e.
                                                            push-Keeps u ContainerType.map16 (0) h)
                                                            (λ e.
                                                            (if-Keeps (ch == 0xdf)
                                                            (λ e.
                                                            push-Keeps u ContainerType.map32 (0) h)
                                                            (λ e.
                                                            progress-Keeps u ch
                                                            h))))))))))))))))))))))))))))))))))

value-Keeps : (u : Unpacker) (ch : ℕ) → length u.stack ≤ max_stack → Keeps u (feed_value u ch)
unfolding feed_value
value-Keeps u ch h =
    (if-Keeps (leb ch 0x7f) (λ e. progress-Keeps u ch h)
      (λ e.
        (if-Keeps (leb ch 0x8f) (λ e. push-Keeps u ContainerType.fixmap (bit_and ch 0xf * 2) h)
          (λ e.
            (if-Keeps (leb ch 0x9f) (λ e. push-Keeps u ContainerType.fixarray (bit_and ch 0xf) h)
              (λ e.
                (if-Keeps (leb ch 0xbf) (λ e. push-Keeps u ContainerType.raw (bit_and ch 0x1f) h)
                  (λ e.
                    (if-Keeps (ch == 0xc0) (λ e. progress-Keeps u ch h)
                      (λ e.
                        (if-Keeps (ch == 0xc1) (λ e. refused)
                          (λ e.
                            (if-Keeps (ch == 0xc2) (λ e. progress-Keeps u ch h)
                              (λ e.
                                (if-Keeps (ch == 0xc3) (λ e. progress-Keeps u ch h)
                                  (λ e.
                                    (if-Keeps (leb ch 0xc9) (λ e. refused)
                                      (λ e. tagged-Keeps u ch h))))))))))))))))))

-- A round that goes on leaves fewer bytes, and a state that keeps the bounds.
pub data Rounds (u : Unpacker) (n : ℕ) : Option (List ℕ × Unpacker) → Type 0 where
  stops : Rounds u n none
  goes_on : {p : List ℕ} {v : Unpacker} → length p ≤ n → Keeps u (some v) → Rounds u n (some (p, v))

with_rest-Rounds :
    {u : Unpacker} {n : ℕ} (p : List ℕ) {o : Option Unpacker}
    → length p ≤ n
    → Keeps u o
    → Rounds u n (with_rest p o)
with_rest-Rounds p h refused = stops
with_rest-Rounds p h (kept a b c) = goes_on h (kept a b c)

round_for-Rounds :
    (ch : ℕ) (p : List ℕ) (u : Unpacker) (need : Option ℕ)
    → length u.stack ≤ max_stack
    → Rounds u (length p) (round_for ch p u need)
unfolding round_for unpacker_progress_datasize
round_for-Rounds ch p u none h = with_rest-Rounds p (omega arith) (value-Keeps u ch h)
round_for-Rounds ch p u (some zero) h = goes_on (omega arith) (progress-Keeps u ch h)
round_for-Rounds ch p u (some (suc n)) h =
    let progress = min (suc n) (suc (length p)) in
    with_rest-Rounds (drop progress (ch ∷ p)) (omega (arith, length-drop progress (ch ∷ p)))
      (top-Keeps u progress u.stack h)

pub feed_round-Rounds :
    (ch : ℕ) (p : List ℕ) (u : Unpacker)
    → length u.stack ≤ max_stack
    → Rounds u (length p) (feed_round ch p u)
unfolding feed_round
feed_round-Rounds ch p u h = round_for-Rounds ch p u (container_needs_bytes u.stack) h

Keeps-trans : {u v w : Unpacker} → Keeps u (some v) → Keeps v (some w) → Keeps u (some w)
Keeps-trans (kept a b c) (kept d e f) = kept d (e ∙ b) (f ∙ c)

pub Keeps-depth : {u v : Unpacker} → Keeps u (some v) → length v.stack ≤ max_stack
Keeps-depth (kept a b c) = a

continue-Keeps :
    {u : Unpacker} {n : ℕ} (loop : List ℕ → Unpacker → Unpacker × Bool)
    {o : Option (List ℕ × Unpacker)}
    → length u.stack ≤ max_stack
    → ((p : List ℕ) (v : Unpacker) → length v.stack ≤ max_stack → Keeps v (some (loop p v).0))
    → Rounds u n o
    → Keeps u (some (continue loop u o).0)
continue-Keeps loop d h stops = kept d refl refl
continue-Keeps loop d h (goes_on {p} {v} l k) = Keeps-trans k (h p v (Keeps-depth k))

pub loop-Keeps :
    (fuel : ℕ) (p : List ℕ) (u : Unpacker)
    → length u.stack ≤ max_stack
    → Keeps u (some (feed_loop fuel p u).0)
unfolding feed_loop
loop-Keeps zero p u h = kept h refl refl
loop-Keeps (suc fuel) [] u h = kept h refl refl
loop-Keeps (suc fuel) (ch ∷ p) u h =
    continue-Keeps (feed_loop fuel) h (loop-Keeps fuel) (feed_round-Rounds ch p u h)

IsBounded-after :
    (u : Unpacker) (p : List ℕ) {v : Unpacker}
    → length u.buf + length p ≤ u.size
    → Keeps (record u { buf = u.buf ++ p }) (some v)
    → IsBounded v
IsBounded-after u p h (kept a b c) = record {
  depth = a;
  used = omega (arith, ap length b, c, length-append u.buf p);
}

-- From a state within the bounds, feeding any bytes keeps the stack within its 256 entries and the
-- used bytes within the buffer,
-- also when the feed is refused in the middle.
pub feed-IsBounded : (u : Unpacker) (p : List ℕ) → IsBounded u → IsBounded (unpacker_feed u p).0
unfolding unpacker_feed
feed-IsBounded u p h = elim (Bool-cases (ltb u.size (length u.buf + length p))) [
  | inl full ↦ rw full h
  | inr room ↦ rw room (
      IsBounded-after u p (ground arith)
        (loop-Keeps (length p) p (record u { buf = u.buf ++ p }) h.depth))
]

continue_same :
    {u : Unpacker} {n : ℕ} (f g : List ℕ → Unpacker → Unpacker × Bool)
    {o : Option (List ℕ × Unpacker)}
    → ((p : List ℕ) (v : Unpacker) → length p ≤ n → length v.stack ≤ max_stack → f p v ≡ g p v)
    → Rounds u n o
    → continue f u o ≡ continue g u o
continue_same f g h stops = refl
continue_same f g h (goes_on {p} {v} l k) = h p v l (Keeps-depth k)

pub loop_done : (fuel : ℕ) (u : Unpacker) → feed_loop fuel [] u ≡ (u, true)
unfolding feed_loop
loop_done zero u = refl
loop_done (suc fuel) u = refl

-- Each round takes a byte, so a round for each byte is enough to reach the end: more change nothing.
pub feed_loop-enough :
    (fuel more : ℕ) (p : List ℕ) (u : Unpacker)
    → length p ≤ fuel
    → length p ≤ more
    → length u.stack ≤ max_stack
    → feed_loop fuel p u ≡ feed_loop more p u
unfolding feed_loop
feed_loop-enough fuel more [] u h k d = loop_done fuel u ∙ sym (loop_done more u)
feed_loop-enough zero more (ch ∷ p) u h k d = absurd (omega arith)
feed_loop-enough (suc fuel) zero (ch ∷ p) u h k d = absurd (omega arith)
feed_loop-enough (suc fuel) (suc more) (ch ∷ p) u h k d =
    continue_same (feed_loop fuel) (feed_loop more)
      (λ q v l e. feed_loop-enough fuel more q v (omega arith) (omega arith) e)
      (feed_round-Rounds ch p u d)
