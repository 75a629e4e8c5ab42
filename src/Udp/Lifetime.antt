-- ===== src/Udp/Lifetime.antt =====
-- How long the object of a UDP socket is held.
use mathlib.Core.Option.{some-injective}
use mathlib.Core.Path.{subst}
use lev.Handle.Counter.{Tally, IsFresh, init-Tally}
use lev.Handle.{Registry, init_ref}
use lev.Handle.Client.{spend, is_minus_one, ref_counted, answered, credits, run, run-Keeps}
use lev.Base.{
  ℕ, zero, suc, ◌+◌, ◌≡◌, refl, Option, none, some, List, arith, sym, if◌then◌else◌, true, false,
  Bool-cases, inl, inr, ◌-◌,
}
use lev.Base.Int.{ℤ, pos, negsuc}
use lev.Udp.{
  UdpObj, Event, step, bind, bind6, send, recv_start, recv, close, sent, closed, referenced,
  udp_bind, udp_close, udp_bind6, udp_send, udp_recv_start, on_recv, udp_after_send,
  udp_after_close, udp_new,
}

abbrev with_success : ℤ → ℕ → ℕ
with_success r k = if is_minus_one r then k else suc k

-- The references that no request of libuv's gives back: `bind`, `bind6` and `recv_start` each leave one
-- when they succeed, and each closing of the socket uses one up.
unfoldable pub credit : Event → ℕ → Option ℕ
credit (bind r err) k = some (with_success r k)
credit (bind6 r err) k = some (with_success r k)
credit (recv_start r err) k = some (with_success r k)
credit (send r err) k = some k
credit (recv (pos (suc n)) err addr) k = some k
credit (recv (pos zero) err addr) k = spend k
credit (recv (negsuc n) err addr) k = spend k
credit close k = spend k
credit sent k = some k
credit closed k = some k

-- With k of them left, the references are these and those of the requests.
unfoldable pub IsCounted : Registry → ℕ → UdpObj → Type 0
IsCounted r₀ k self = Tally r₀ (k + self.sends + self.closes) self.refs

referenced-IsCounted :
    (r₀ : Registry) (r : ℤ) (err : List ℕ) (k k' : ℕ) (self next : UdpObj)
    → IsCounted r₀ k self
    → (is_minus_one r ≡ true → k' ≡ k)
    → (is_minus_one r ≡ false → k' + next.sends + next.closes ≡ suc (k + self.sends + self.closes))
    → IsCounted r₀ k' (referenced r err self next).1
unfolding IsCounted referenced
referenced-IsCounted r₀ r err k k' self next t g h = elim (Bool-cases (is_minus_one r)) [
  | inl e ↦ rw (e, g e) t
  | inr e ↦ rw e (ref_counted r₀ _ _ _ t (sym (h e)))
]

held-IsCounted :
    (r₀ : Registry) (r : ℤ) (err : List ℕ) (k k' : ℕ) (self next : UdpObj)
    → IsCounted r₀ k self
    → next.sends ≡ self.sends
    → next.closes ≡ self.closes
    → with_success r k ≡ k'
    → IsCounted r₀ k' (referenced r err self next).1
held-IsCounted r₀ r err k k' self next t s l c =
    referenced-IsCounted r₀ r err k k' self next t (λ e. let same : k ≡ k' = rw e at c in sym same)
      (λ e. let more : suc k ≡ k' = rw e at c in omega (arith, more, s, l))

udp_close-IsCounted :
    (r₀ : Registry) (k k' : ℕ) (self : UdpObj)
    → IsCounted r₀ k self
    → spend k ≡ some k'
    → IsCounted r₀ k' (udp_close self)
unfolding IsCounted udp_close
udp_close-IsCounted r₀ zero k' self t c = absurd (cc)
udp_close-IsCounted r₀ (suc k) k' self t c =
    subst (λ j. Tally r₀ j self.refs) (omega (arith, some-injective k k' c)) t

step-IsCounted :
    (r₀ : Registry)
    → IsFresh r₀
    → (e : Event) (k k' : ℕ) (self : UdpObj) → IsCounted r₀ k self
    → credit e k ≡ some k'
    → (s : UdpObj) × (step e self ≡ some s) × IsCounted r₀ k' s
unfolding step credit IsCounted udp_bind udp_bind6 udp_send udp_recv_start on_recv udp_after_send
    udp_after_close
step-IsCounted r₀ f (bind r err) k k' self t c = (
  _,
  refl,
  held-IsCounted r₀ r err k k' self self t refl refl (some-injective (with_success r k) k' c),
)
step-IsCounted r₀ f (bind6 r err) k k' self t c = (
  _,
  refl,
  held-IsCounted r₀ r err k k' self self t refl refl (some-injective (with_success r k) k' c),
)
step-IsCounted r₀ f (recv_start r err) k k' self t c = (
  _,
  refl,
  held-IsCounted r₀ r err k k' self (record self { receiving = true }) t refl refl
      (some-injective (with_success r k) k' c),
)
step-IsCounted r₀ f (send r err) k k' self t c = (
  _,
  refl,
  referenced-IsCounted r₀ r err k k' self (record self { sends = suc self.sends }) t
      (λ e. sym (some-injective k k' c)) (λ e. omega (arith, some-injective k k' c)),
)
step-IsCounted r₀ f (recv (pos (suc n)) err addr) k k' self t c = (
  _,
  refl,
  subst (λ j. IsCounted r₀ j (record self { receiving = false })) (some-injective k k' c) t,
)
step-IsCounted r₀ f (recv (pos zero) err addr) k k' self t c =
    (_, refl, udp_close-IsCounted r₀ k k' self t c)
step-IsCounted r₀ f (recv (negsuc zero) err addr) k k' self t c =
    (_, refl, udp_close-IsCounted r₀ k k' self t c)
step-IsCounted r₀ f (recv (negsuc (suc n)) err addr) k k' self t c =
    (_, refl, udp_close-IsCounted r₀ k k' self t c)
step-IsCounted r₀ f close k k' self t c = (_, refl, udp_close-IsCounted r₀ k k' self t c)
step-IsCounted r₀ f sent k k' self t c =
    let (s, e, t') =
      answered (IsCounted r₀ k) r₀ _ (k + (self.sends - 1) + self.closes) self.sends self self.refs
        (λ x. record self { refs = x; sends = self.sends - 1 }) (udp_after_send self) f t t
        (λ c'. (omega (arith, c'), λ x t'. t')) (λ x r. rw (r, udp_after_send) refl) in
    (s, e, subst (λ j. IsCounted r₀ j s) (some-injective k k' c) t')
step-IsCounted r₀ f closed k k' self t c =
    let (s, e, t') =
      answered (IsCounted r₀ k) r₀ _ (k + self.sends + (self.closes - 1)) self.closes self self.refs
        (λ x. record self { refs = x; closes = self.closes - 1 }) (udp_after_close self) f t t
        (λ c'. (omega (arith, c'), λ x t'. t')) (λ x r. rw (r, udp_after_close) refl) in
    (s, e, subst (λ j. IsCounted r₀ j s) (some-injective k k' c) t')

-- From a new socket, let libuv call back only for requests that it has, and let each closing (`close`,
-- or a read of 0 or less) come after a `bind`, `bind6` or `recv_start` of its own that succeeded. Then
-- no assertion fails, and the references are what the calls left over and one for each send and each
-- close that libuv has. The registry holds the object exactly while there is one.
pub run-IsCounted_new_socket :
    (object : ℕ) (es : List Event) (r : Registry) (k : ℕ)
    → IsFresh r
    → credits step credit es 0 ≡ some k
    → (self : UdpObj) × (run step credit es (udp_new (init_ref object none, r)) ≡ some self)
      × IsCounted r k self
unfolding IsCounted
run-IsCounted_new_socket object es r k f c =
    run-Keeps step credit (IsCounted r) (step-IsCounted r f) es 0 k _ (init-Tally object r) c
