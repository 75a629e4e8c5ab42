-- ===== src/Tcp/Lifetime.antt =====
-- How long the object of a TCP socket is held.
use mathlib.Core.Option.{some-injective}
use mathlib.Core.Path.{subst}
use lev.Handle.Counter.{IsFresh, Tally, init-Tally}
use lev.Handle.Client.{
  spend, Refs, is_minus_one, handle_unref, ref_counted, handle_unref-Tally, answered,
  answered_always, credits, run, run-Keeps,
}
use lev.Base.{
  ℕ, zero, suc, ◌+◌, ◌-◌, ◌≡◌, refl, Option, none, some, List, arith, sym, if◌then◌else◌,
  Bool-cases, inl, inr,
}
use lev.Base.Int.{ℤ, pos, negsuc}
use lev.Handle.{is_zero, Registry, init_ref}
use lev.Tcp.Socket.{
  TcpObj, Event, step, connect, listen, close, connected, read, shut, closed, close_client,
  held_when_zero, tcp_connect, tcp_after_close, tcp_listen, tcp_close, on_read, on_connect,
  tcp_after_shutdown, tcp_accept, tcp_new,
}

abbrev pub with_one : ℤ → ℕ → ℕ
with_one r k = if is_zero r then suc k else k

-- The references that a closing is to give back: `connect` and `listen` each leave one when they
-- succeed, and each closing and each connect that fails later uses one up.
unfoldable pub credit : Event → ℕ → Option ℕ
credit (connect r) k = some (with_one r k)
credit (listen r) k = some (with_one r k)
credit (close fd) k = spend k
credit (read nread fd) k = if is_minus_one nread then spend k else some k
credit (connected status) k = if is_zero status then some k else spend k
credit shut k = some k
credit closed k = some k

-- With k of them left, the references are these and those that a shutdown or close is to give back.
unfoldable pub IsCounted : Registry → ℕ → TcpObj → Type 0
IsCounted r₀ k self = Tally r₀ (k + self.shutdowns + self.closes) self.refs

held-IsCounted :
    (r₀ : Registry) (r : ℤ) (k k' : ℕ) (self : TcpObj)
    → IsCounted r₀ k self
    → with_one r k ≡ k'
    → IsCounted r₀ k' (held_when_zero r self).1
unfolding IsCounted
held-IsCounted r₀ r k k' self t c = elim (Bool-cases (is_zero r)) [
  | inl e ↦ let more : suc k ≡ k' = rw e at c in rw e (ref_counted r₀ _ _ _ t (omega (arith, more)))
  | inr e ↦ let same : k ≡ k' = rw e at c in rw (e, sym same) t
]

unref-IsCounted :
    (r₀ : Registry)
    → IsFresh r₀
    → (k k' : ℕ) (self : TcpObj) → IsCounted r₀ k self
    → spend k ≡ some k'
    → (x : Refs) × (handle_unref self.refs ≡ some x) × IsCounted r₀ k' (record self { refs = x })
unfolding IsCounted
unref-IsCounted r₀ f zero k' self t c = absurd (cc)
unref-IsCounted r₀ f (suc k) k' self t c =
    let t' = subst (λ j. Tally r₀ j self.refs) (omega (arith, some-injective k k' c)) t in
    handle_unref-Tally r₀ (k' + self.shutdowns + self.closes) self.refs f t'

close_client-IsCounted :
    (r₀ : Registry)
    → IsFresh r₀
    → (fd : ℤ) (k k' : ℕ) (self : TcpObj) → IsCounted r₀ k self
    → spend k ≡ some k'
    → (s : TcpObj) × (close_client fd self ≡ some s) × IsCounted r₀ k' s
unfolding IsCounted close_client tcp_after_close
close_client-IsCounted r₀ f fd zero k' self t c = absurd (cc)
close_client-IsCounted r₀ f (pos fd) (suc k) k' self t c =
    (_, refl, subst (λ j. Tally r₀ j self.refs) (omega (arith, some-injective k k' c)) t)
close_client-IsCounted r₀ f (negsuc n) (suc k) k' self t c =
    let (x, e, t') = unref-IsCounted r₀ f (suc k) k' self t c in
    (_, rw (e, tcp_after_close, close_client) refl, t')

step-IsCounted :
    (r₀ : Registry)
    → IsFresh r₀
    → (e : Event) (k k' : ℕ) (self : TcpObj) → IsCounted r₀ k self
    → credit e k ≡ some k'
    → (s : TcpObj) × (step e self ≡ some s) × IsCounted r₀ k' s
unfolding step credit IsCounted tcp_connect tcp_listen tcp_close on_read on_connect
    tcp_after_shutdown tcp_after_close
step-IsCounted r₀ f (connect r) k k' self t c =
    (_, refl, held-IsCounted r₀ r k k' self t (some-injective (with_one r k) k' c))
step-IsCounted r₀ f (listen r) k k' self t c =
    (_, refl, held-IsCounted r₀ r k k' self t (some-injective (with_one r k) k' c))
step-IsCounted r₀ f (close fd) k k' self t c = close_client-IsCounted r₀ f fd k k' self t c
step-IsCounted r₀ f (read nread fd) k k' self t c = elim (Bool-cases (is_minus_one nread)) [
  | inl e ↦
      let c' : spend k ≡ some k' = rw e at c in
      let (s, e', t') = close_client-IsCounted r₀ f fd k k' self t c' in (s, rw (e, e') refl, t')
  | inr e ↦
      let c' : some k ≡ some k' = rw e at c in
      (self, rw e refl, subst (λ j. IsCounted r₀ j self) (some-injective k k' c') t)
]
step-IsCounted r₀ f (connected status) k k' self t c = elim (Bool-cases (is_zero status)) [
  | inl e ↦
      let c' : some k ≡ some k' = rw e at c in
      (self, rw e refl, subst (λ j. IsCounted r₀ j self) (some-injective k k' c') t)
  | inr e ↦
      let c' : spend k ≡ some k' = rw e at c in
      let (x, e', t') = unref-IsCounted r₀ f k k' self t c' in
      (record self { refs = x }, rw (e, e') refl, t')
]
step-IsCounted r₀ f shut k k' self t c =
    let (s, e, t') =
      answered_always (IsCounted r₀ k) self.shutdowns self (tcp_after_shutdown self) t
        (λ c'. subst (λ j. Tally r₀ j self.refs) (omega (arith, c')) t) in
    (s, e, subst (λ j. IsCounted r₀ j s) (some-injective k k' c) t')
step-IsCounted r₀ f closed k k' self t c =
    let (s, e, t') =
      answered (IsCounted r₀ k) r₀ _ (k + self.shutdowns + (self.closes - 1)) self.closes self
        self.refs (λ x. record self { refs = x; closes = self.closes - 1 }) _ f t t
        (λ c'. (omega (arith, c'), λ x t'. t')) (λ x r. rw (r, tcp_after_close) refl) in
    (s, e, subst (λ j. IsCounted r₀ j s) (some-injective k k' c) t')

-- From a socket that `tcp_accept` made (with the reference of a result of 0, and as `tcp_new` makes it
-- else), let each closing (`close`, or a read of -1) and each connect that fails later come after a
-- `connect` or `listen` of its own that succeeded, or use up the accepted connection's reference. Then
-- no assertion fails, and the references are what the calls left over and one for each shutdown and
-- each close that libuv has. The registry holds the object exactly while there is one.
pub run-IsCounted_accepted :
    (object : ℕ) (r : ℤ) (es : List Event) (registry : Registry) (k : ℕ)
    → IsFresh registry
    → credits step credit es (with_one r 0) ≡ some k
    → (self : TcpObj) × (run step credit es (tcp_accept r (init_ref object none, registry)).1
        ≡ some self)
      × IsCounted registry k self
unfolding IsCounted tcp_accept
run-IsCounted_accepted object r es registry k f c =
    run-Keeps step credit (IsCounted registry) (step-IsCounted registry f) es (with_one r 0) k _
      (held-IsCounted registry r 0 (with_one r 0) (tcp_new (init_ref object none, registry))
        (init-Tally object registry) refl)
      c
