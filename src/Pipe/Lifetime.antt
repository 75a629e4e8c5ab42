-- ===== src/Pipe/Lifetime.antt =====
-- How long the object of a pipe is held.
use mathlib.Core.Path.{subst}
use mathlib.Core.Option.{some-injective}
use lev.Handle.Counter.{Tally, IsFresh, init-Tally}
use lev.Handle.{Registry, init_ref}
use lev.Handle.Client.{spend, is_minus_one, credits, run, run-Keeps, ref_counted, answered}
use lev.Base.{
  ℕ, zero, suc, ◌+◌, ◌*◌, ◌≡◌, refl, Option, none, some, List, arith, if◌then◌else◌, sym, ◌-◌, Bool,
}
use lev.Base.Int.{pos, negsuc}
use lev.Pipe.{
  PipeObj, Event, step, bind, listen, read_start, connect, write, close, read, connected, written,
  shut, closed, pipe_bind, pipe_listen, pipe_connect, pipe_read_start, pipe_write, close_client,
  pipe_close, on_read, on_connect, pipe_after_write, pipe_after_shutdown, pipe_after_close, object,
  pipe_new,
}

-- The references that no request of libuv's gives back: `bind`, `listen` and `read_start` each leave
-- one, and each closing of the pipe uses one up.
unfoldable pub credit : Event → ℕ → Option ℕ
credit (bind r) k = some (suc k)
credit (listen r) k = some (suc k)
credit (read_start r) k = some (suc k)
credit close k = spend k
credit (read nread) k = if is_minus_one nread then spend k else some k
credit connect k = some k
credit write k = some k
credit (connected status) k = some k
credit written k = some k
credit shut k = some k
credit closed k = some k

-- With k of them left, the references are these and those of the requests; a shutdown has its own and
-- the one that the close after it gives back.
unfoldable pub IsCounted : Registry → ℕ → PipeObj → Type 0
IsCounted r₀ k self =
    Tally r₀ (k + self.connects + self.writes + 2 * self.shutdowns + self.closes) self.refs

close_client-IsCounted :
    (r₀ : Registry) (k k' : ℕ) (self : PipeObj)
    → IsCounted r₀ k self
    → spend k ≡ some k'
    → IsCounted r₀ k' (close_client self)
unfolding IsCounted close_client
close_client-IsCounted r₀ zero k' self t c = absurd (cc)
close_client-IsCounted r₀ (suc k) k' self t c =
    rw (sym (some-injective _ _ c)) (ref_counted r₀ _ _ _ t (omega arith))

step-IsCounted :
    (r₀ : Registry)
    → IsFresh r₀
    → (e : Event) (k k' : ℕ) (self : PipeObj) → IsCounted r₀ k self
    → credit e k ≡ some k'
    → (s : PipeObj) × (step e self ≡ some s) × IsCounted r₀ k' s
unfolding step credit IsCounted pipe_bind pipe_listen pipe_connect pipe_read_start pipe_write
    close_client pipe_close on_read on_connect pipe_after_write pipe_after_shutdown pipe_after_close
step-IsCounted r₀ f (bind r) k k' self t c =
    (_, refl, rw (sym (some-injective _ _ c)) (ref_counted r₀ _ _ _ t (omega arith)))
step-IsCounted r₀ f (listen r) k k' self t c =
    (_, refl, rw (sym (some-injective _ _ c)) (ref_counted r₀ _ _ _ t (omega arith)))
step-IsCounted r₀ f (read_start r) k k' self t c =
    (_, refl, rw (sym (some-injective _ _ c)) (ref_counted r₀ _ _ _ t (omega arith)))
step-IsCounted r₀ f connect k k' self t c =
    (_, refl, rw (sym (some-injective _ _ c)) (ref_counted r₀ _ _ _ t (omega arith)))
step-IsCounted r₀ f write k k' self t c =
    (_, refl, rw (sym (some-injective _ _ c)) (ref_counted r₀ _ _ _ t (omega arith)))
step-IsCounted r₀ f close k k' self t c = (_, refl, close_client-IsCounted r₀ k k' self t c)
step-IsCounted r₀ f (read (pos n)) k k' self t c =
    (_, refl, subst (λ j. IsCounted r₀ j self) (some-injective k k' c) t)
step-IsCounted r₀ f (read (negsuc zero)) k k' self t c =
    (_, refl, close_client-IsCounted r₀ k k' self t c)
step-IsCounted r₀ f (read (negsuc (suc n))) k k' self t c =
    (_, refl, subst (λ j. IsCounted r₀ j self) (some-injective k k' c) t)
step-IsCounted r₀ f (connected status) k k' self t c =
    let (s, e, t') =
      answered (IsCounted r₀ k) r₀ _
        (k + (self.connects - 1) + self.writes + 2 * self.shutdowns + self.closes) self.connects
        self self.refs (λ x. record self { refs = x; connects = self.connects - 1 })
        (object (on_connect status self)) f t t (λ c'. (omega (arith, c'), λ x t'. t'))
        (λ x r. rw (r, object) refl) in
    (s, e, subst (λ j. IsCounted r₀ j s) (some-injective k k' c) t')
step-IsCounted r₀ f written k k' self t c =
    let (s, e, t') =
      answered (IsCounted r₀ k) r₀ _
        (k + self.connects + (self.writes - 1) + 2 * self.shutdowns + self.closes) self.writes self
        self.refs (λ x. record self { refs = x; writes = self.writes - 1 }) (pipe_after_write self)
        f t t (λ c'. (omega (arith, c'), λ x t'. t')) (λ x r. rw (r, pipe_after_write) refl) in
    (s, e, subst (λ j. IsCounted r₀ j s) (some-injective k k' c) t')
step-IsCounted r₀ f shut k k' self t c =
    let (s, e, t') =
      answered (IsCounted r₀ k) r₀ _
        (k + self.connects + self.writes + 2 * (self.shutdowns - 1) + suc self.closes)
        self.shutdowns self self.refs
        (λ x. record self { refs = x; shutdowns = self.shutdowns - 1; closes = suc self.closes })
        (pipe_after_shutdown self) f t t (λ c'. (omega (arith, c'), λ x t'. t'))
        (λ x r. rw (r, pipe_after_shutdown) refl) in
    (s, e, subst (λ j. IsCounted r₀ j s) (some-injective k k' c) t')
step-IsCounted r₀ f closed k k' self t c =
    let (s, e, t') =
      answered (IsCounted r₀ k) r₀ _
        (k + self.connects + self.writes + 2 * self.shutdowns + (self.closes - 1)) self.closes self
        self.refs (λ x. record self { refs = x; closes = self.closes - 1 }) (pipe_after_close self)
        f t t (λ c'. (omega (arith, c'), λ x t'. t')) (λ x r. rw (r, pipe_after_close) refl) in
    (s, e, subst (λ j. IsCounted r₀ j s) (some-injective k k' c) t')

-- From a new pipe, let libuv call back only for requests that it has, and let each closing (`close`, or
-- a read of -1) come after a `bind`, `listen` or `read_start` of its own. Then no assertion fails, and
-- the references are what the calls left over and those of libuv's requests: a connect, a write and a
-- close each one, a shutdown two. The registry holds the object exactly while there is one.
pub run-IsCounted_new :
    (object : ℕ) (es : List Event) (r : Registry) (is_ipc : Bool) (k : ℕ)
    → IsFresh r
    → credits step credit es 0 ≡ some k
    → (self : PipeObj) × (run step credit es (pipe_new (init_ref object none, r) is_ipc)
        ≡ some self)
      × IsCounted r k self
unfolding IsCounted
run-IsCounted_new object es r is_ipc k f c =
    run-Keeps step credit (IsCounted r) (step-IsCounted r f) es 0 k _ (init-Tally object r) c
