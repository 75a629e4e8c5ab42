-- ===== src/Mpack/Unpacker/Buffered.antt =====
-- The rounds of the unpacker's loop do not look at its buffer.
use lev.Base.{
  ℕ, zero, suc, ◌+◌, ◌-◌, ◌≡◌, refl, Bool, true, false, Option, none, some, List, [], ◌∷◌, ltb, leb,
  ◌==◌, if◌then◌else◌, length, bit_and, ◌&&◌, drop, Bool-cases, inl, inr, ◌*◌,
}
use Prim.Native.Nat.{min}
use lev.Mpack.Unpacker.{
  Unpacker, feed_tagged, feed_value, unpacker_push, unpacker_progress, progress_top,
  unpacker_progress_datasize, round_for, feed_round, feed_loop, with_rest, continue,
  container_needs_bytes, StackEntry, ContainerType, float, double, uint8, uint16, uint32, uint64,
  int8, int16, int32, int64, raw, raw16, raw32, array16, array32, map16, map32, fixarray, fixmap,
  max_stack, sizesize_of,
}

-- The state with other bytes in its buffer.
abbrev pub on_buffer : List ℕ → Unpacker → Unpacker
on_buffer B u = record u { buf = B }

abbrev pub buffered : List ℕ → Option Unpacker → Option Unpacker
buffered B none = none
buffered B (some u) = some (on_buffer B u)

if-buffered :
    (B : List ℕ) (b : Bool) {x y : Option Unpacker} (x' y' : Option Unpacker)
    → x ≡ buffered B x'
    → y ≡ buffered B y'
    → (if b then x else y) ≡ buffered B (if b then x' else y')
if-buffered B true x' y' h k = h
if-buffered B false x' y' h k = k

push-buffered :
    (B : List ℕ) (u : Unpacker) (t : ContainerType) (expect : ℕ)
    → unpacker_push (on_buffer B u) t expect ≡ buffered B (unpacker_push u t expect)
unfolding unpacker_push unpacker_progress
push-buffered B u t expect =
    if-buffered B (leb max_stack (length u.stack)) _ _ refl
      (elim (Bool-cases (sizesize_of t == 0 && expect == 0)) [
        | inl e ↦ rw e refl
        | inr e ↦ rw e refl
      ])

tagged-buffered :
    (B : List ℕ) (u : Unpacker) (ch : ℕ)
    → feed_tagged (on_buffer B u) ch ≡ buffered B (feed_tagged u ch)
unfolding feed_tagged unpacker_progress
tagged-buffered B u ch =
    (if-buffered B (ch == 0xca) _ _ (push-buffered B u float 4) (
      if-buffered B (ch == 0xcb) _ _ (push-buffered B u double 8) (
        if-buffered B (ch == 0xcc) _ _ (push-buffered B u uint8 1) (
          if-buffered B (ch == 0xcd) _ _ (push-buffered B u uint16 2) (
            if-buffered B (ch == 0xce) _ _ (push-buffered B u uint32 4) (
              if-buffered B (ch == 0xcf) _ _ (push-buffered B u uint64 8) (
                if-buffered B (ch == 0xd0) _ _ (push-buffered B u int8 1) (
                  if-buffered B (ch == 0xd1) _ _ (push-buffered B u int16 2) (
                    if-buffered B (ch == 0xd2) _ _ (push-buffered B u int32 4) (
                      if-buffered B (ch == 0xd3) _ _ (push-buffered B u int64 8) (
                        if-buffered B (leb ch 0xd9) _ _ refl (
                          if-buffered B (ch == 0xda) _ _ (push-buffered B u raw16 0) (
                            if-buffered B (ch == 0xdb) _ _ (push-buffered B u raw32 0) (
                              if-buffered B (ch == 0xdc) _ _ (push-buffered B u array16 0) (
                                if-buffered B (ch == 0xdd) _ _ (push-buffered B u array32 0) (
                                  if-buffered B (ch == 0xde) _ _ (push-buffered B u map16 0) (
                                    if-buffered B (ch == 0xdf) _ _ (push-buffered B u map32 0)
                                      refl)))))))))))))))))

value-buffered :
    (B : List ℕ) (u : Unpacker) (ch : ℕ)
    → feed_value (on_buffer B u) ch ≡ buffered B (feed_value u ch)
unfolding feed_value unpacker_progress
value-buffered B u ch =
    (if-buffered B (leb ch 0x7f) _ _ refl (
      if-buffered B (leb ch 0x8f) _ _ (push-buffered B u fixmap (bit_and ch 0xf * 2)) (
        if-buffered B (leb ch 0x9f) _ _ (push-buffered B u fixarray (bit_and ch 0xf)) (
          if-buffered B (leb ch 0xbf) _ _ (push-buffered B u raw (bit_and ch 0x1f)) (
            if-buffered B (ch == 0xc0) _ _ refl (
              if-buffered B (ch == 0xc1) _ _ refl (
                if-buffered B (ch == 0xc2) _ _ refl (
                  if-buffered B (ch == 0xc3) _ _ refl
                    (if-buffered B (leb ch 0xc9) _ _ refl (tagged-buffered B u ch))))))))))

top-buffered :
    (B : List ℕ) (u : Unpacker) (progress : ℕ) (st : List StackEntry)
    → progress_top (on_buffer B u) progress st ≡ buffered B (progress_top u progress st)
unfolding progress_top unpacker_progress
top-buffered B u progress [] = refl
top-buffered B u progress (top ∷ es) =
    if-buffered B (ltb (top.expect - top.sofar) progress) _ _ refl
      (if-buffered B (top.sofar + progress == top.expect) _ _ refl refl)

abbrev pub rest_buffered : List ℕ → Option (List ℕ × Unpacker) → Option (List ℕ × Unpacker)
rest_buffered B none = none
rest_buffered B (some (p, u)) = some (p, on_buffer B u)

with_rest-buffered :
    (B p : List ℕ) (o : Option Unpacker)
    → with_rest p (buffered B o) ≡ rest_buffered B (with_rest p o)
with_rest-buffered B p none = refl
with_rest-buffered B p (some u) = refl

round-buffered :
    (B : List ℕ) (ch : ℕ) (p : List ℕ) (u : Unpacker) (need : Option ℕ)
    → round_for ch p (on_buffer B u) need ≡ rest_buffered B (round_for ch p u need)
unfolding round_for unpacker_progress_datasize unpacker_progress
round-buffered B ch p u none = rw (value-buffered B u ch) (with_rest-buffered B p (feed_value u ch))
round-buffered B ch p u (some zero) = refl
round-buffered B ch p u (some (suc n)) =
    let progress = min (suc n) (suc (length p)) in
    rw (top-buffered B u progress u.stack)
      (with_rest-buffered B (drop progress (ch ∷ p)) (progress_top u progress u.stack))

abbrev pub outcome_buffered : List ℕ → Unpacker × Bool → Unpacker × Bool
outcome_buffered B (u, b) = (on_buffer B u, b)

continue-buffered :
    (B : List ℕ) (loop : List ℕ → Unpacker → Unpacker × Bool) (u : Unpacker)
    (o : Option (List ℕ × Unpacker))
    → ((p : List ℕ) (v : Unpacker) → loop p (on_buffer B v) ≡ outcome_buffered B (loop p v))
    → continue loop (on_buffer B u) (rest_buffered B o) ≡ outcome_buffered B (continue loop u o)
continue-buffered B loop u none h = refl
continue-buffered B loop u (some (q, v)) h = h q v

pub loop-buffered :
    (B : List ℕ) (fuel : ℕ) (p : List ℕ) (u : Unpacker)
    → feed_loop fuel p (on_buffer B u) ≡ outcome_buffered B (feed_loop fuel p u)
unfolding feed_loop feed_round
loop-buffered B zero p u = refl
loop-buffered B (suc fuel) [] u = refl
loop-buffered B (suc fuel) (ch ∷ p) u =
    rw (round-buffered B ch p u (container_needs_bytes u.stack)) (
      continue-buffered B (feed_loop fuel) u (round_for ch p u (container_needs_bytes u.stack))
        (loop-buffered B fuel))
