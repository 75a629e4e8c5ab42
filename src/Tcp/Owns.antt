-- ===== src/Tcp/Owns.antt =====
-- Who owns the memory of a connection.
use lev.Buffer.Memory.{MemSlice}
use lev.Base.{
  ℕ, zero, suc, List, [], ◌∷◌, ◌++◌, Option, some, Bool, true, false, ◌≡◌, ◌≤◌, ◌<◌, ◌+◌, ◌==◌, inl,
  inr, arith, refl, ap, Bool-cases, if◌then◌else◌, ==_iff, length, not, ◌||◌, ltb,
}
use lev.Slab.Pools.{hit, count}
use lev.Tcp.Request.{
  Memory, malloced, in_slice, UvBuf, WriteReq, Chunk, text, buffer, malloc_copy, add_chunk,
  empty_req, buffer_max_chunks, current, Connection, tcp_write, tcp_after_write, tcp_bottle, Step,
  write, bottle, after_write, step, steps, opened, flush, put, raises, wrong,
}
use lev.Tcp.Frees.{
  alive, address, owned, IsRequest, addresses, all_addresses, after_write_lem, append_count,
}

-- A change behind the addresses that count.
owned_same :
    (n : ℕ) (r r' : WriteReq)
    → ((i : ℕ) → i < n → r'.mask i ≡ r.mask i)
    → ((i : ℕ) → i < n → r'.bufs i ≡ r.bufs i)
    → owned n r' ≡ owned n r
unfolding owned
owned_same zero r r' h g = refl
owned_same (suc n) r r' h g =
    let ih = owned_same n r r' (λ i l. h i (omega arith)) (λ i l. g i (omega arith)) in
    λ j. address (h n (omega arith) j) (g n (omega arith) j).base ++ ih j

put_other : {A : Type 0} (i j : ℕ) (a : A) (f : ℕ → A) → j < i → put i a f j ≡ f j
put_other i j a f l = let ne : (j == i) ≡ false = ground arith in rw ne refl

put_here : {A : Type 0} (i : ℕ) (a : A) (f : ℕ → A) → put i a f i ≡ a
put_here i a f = let e : (i == i) ≡ true = ground arith in rw e refl

-- A request with one buffer more.
abbrev with_buf : Bool → UvBuf → WriteReq → WriteReq
with_buf marked buf r = record {
  bufs = put r.bufcnt buf r.bufs;
  bufcnt = suc r.bufcnt;
  mask = put r.bufcnt marked r.mask;
}

addresses-with_buf :
    (marked : Bool) (buf : UvBuf) (r : WriteReq)
    → addresses (with_buf marked buf r) ≡ address marked buf.base ++ addresses r
unfolding owned
addresses-with_buf marked buf r =
    let n = r.bufcnt in
    let same =
      owned_same n r (with_buf marked buf r) (λ i l. put_other n i marked r.mask l)
        (λ i l. put_other n i buf r.bufs l) in
    λ j. address (put_here n marked r.mask j) (put_here n buf r.bufs j).base ++ same j

with_buf-IsRequest :
    (marked : Bool) (buf : UvBuf) (r : WriteReq)
    → IsRequest r
    → r.bufcnt < buffer_max_chunks
    → (marked ≡ true → (a : ℕ) × (buf.base ≡ malloced a))
    → IsRequest (with_buf marked buf r)
with_buf-IsRequest marked buf r k l h = record {
  few = l;
  marked = λ i t. elim (Bool-cases (i == r.bufcnt)) [
    | inl e ↦
        let t' : marked ≡ true = rw e at t in
        let (a, b) = h t' in
        let same : i ≡ r.bufcnt = (==_iff i r.bufcnt).0 e in (omega (arith, same), (a, rw e b))
    | inr e ↦
        let t' : r.mask i ≡ true = rw e at t in
        let (l', b) = k.marked i t' in (omega (arith, l'), rw e b)
  ];
}

abbrev AllRequests : List WriteReq → Type 0
AllRequests [] = Unit
AllRequests (r ∷ rs) = IsRequest r × AllRequests rs

AllRequests-append :
    (rs : List WriteReq) (r : WriteReq) → AllRequests rs → IsRequest r → AllRequests (rs ++ r ∷ [])
AllRequests-append [] r h k = (k, tt)
AllRequests-append (x ∷ rs) r (g, h) k = (g, AllRequests-append rs r h k)

count-all_addresses :
    (a : ℕ) (rs : List WriteReq) (r : WriteReq)
    → count a (all_addresses (rs ++ r ∷ [])) ≡ count a (all_addresses rs) + count a (addresses r)
count-all_addresses a [] r = omega (arith, append_count [] (addresses r) a)
count-all_addresses a (x ∷ rs) r = omega (
  arith,
  append_count (all_addresses (rs ++ r ∷ [])) (addresses x) a,
  append_count (all_addresses rs) (addresses x) a,
  count-all_addresses a rs r,
)

-- A request, requests in flight and memory: what is in use is marked in one of them, once.
record Accounts (r : WriteReq) (rs : List WriteReq) (m : Memory) : Type 0 where
  request : IsRequest r
  flying : AllRequests rs
  exact : (a : ℕ) → count a (addresses r) + count a (all_addresses rs) ≡ alive a m
  fresh : (a : ℕ) → m.next ≤ a → alive a m ≡ 0

-- What is in use is marked in the request that is filled or in one in flight, once; the former has
-- room.
pub record IsConnection (c : Connection) : Type 0 where
  accounts : Accounts (current c.writer.wreq) c.in_flight c.memory
  room : (current c.writer.wreq).bufcnt < buffer_max_chunks

empty-IsRequest : IsRequest empty_req
empty-IsRequest = record { few = omega arith; marked = λ i t. absurd (cc) }

flush-IsConnection :
    (c : Connection) (b : Bool) (r : WriteReq) (m : Memory)
    → Accounts r c.in_flight m
    → IsConnection (flush c b r m)
unfolding owned
flush-IsConnection c b r m k = elim (Bool-cases (not b || r.bufcnt == buffer_max_chunks)) [
  | inl t ↦ rw t (record {
    accounts = record {
      request = empty-IsRequest;
      flying = AllRequests-append c.in_flight r k.flying k.request;
      exact = λ a. omega (arith, k.exact a, count-all_addresses a c.in_flight r);
      fresh = k.fresh;
    };
    room = omega arith;
  })
  | inr f ↦ rw f (record { accounts = k; room = ground (arith, f, k.request.few) })
]

malloc_hit : (n a : ℕ) → (n == a) ≡ true → hit n a ≡ 1
malloc_hit n a t = rw t refl

malloc_miss : (n a : ℕ) → (n == a) ≡ false → hit n a ≡ 0
malloc_miss n a f = rw f refl

text-Accounts :
    (s : List ℕ) (r : WriteReq) (rs : List WriteReq) (m : Memory)
    → Accounts r rs m
    → r.bufcnt < buffer_max_chunks
    → Accounts
        (with_buf true (record { base = malloced m.next; len = length s }) r)
        rs
        (malloc_copy s m).1
unfolding malloc_copy
text-Accounts s r rs m k l = record {
  request = with_buf-IsRequest true _ r k.request l (λ t. (m.next, refl));
  flying = k.flying;
  exact = λ a.
      let more =
        ap (count a)
          (addresses-with_buf true (record { base = malloced m.next; len = length s }) r) in
      elim (Bool-cases (m.next == a)) [
        | inl t ↦
            let new = k.fresh a (omega (arith, (==_iff m.next a).0 t)) in
            rw t (omega (arith, more, malloc_hit m.next a t, k.exact a, new))
        | inr f ↦ rw f (omega (arith, more, malloc_miss m.next a f, k.exact a))
      ];
  fresh = λ a h.
      let other : (m.next == a) ≡ false = ground arith in rw other (k.fresh a (omega (arith, h)));
}

buffer-Accounts :
    (ms : MemSlice) (r : WriteReq) (rs : List WriteReq) (m : Memory)
    → Accounts r rs m
    → r.bufcnt < buffer_max_chunks
    → Accounts (with_buf false (record { base = in_slice ms; len = ms.until }) r) rs m
buffer-Accounts ms r rs m k l = record {
  request = with_buf-IsRequest false _ r k.request l (λ t. absurd (cc));
  flying = k.flying;
  exact = λ a. omega (
    arith,
    ap (count a) (addresses-with_buf false (record { base = in_slice ms; len = ms.until }) r),
    k.exact a,
  );
  fresh = k.fresh;
}

-- What is written is a string or a buffer.
abbrev pub IsChunk : Chunk → Type 0
IsChunk chunk = raises chunk ≡ false

abbrev pub AreChunks : List Step → Type 0
AreChunks [] = Unit
AreChunks (write chunk unbottle ∷ ss) = IsChunk chunk × AreChunks ss
AreChunks (bottle ∷ ss) = AreChunks ss
AreChunks (after_write ∷ ss) = AreChunks ss

-- A state that a step leads to.
abbrev Goes : Option Connection → Type 0
Goes r = (c' : Connection) × (r ≡ some c') × IsConnection c'

write-IsConnection :
    (chunk : Chunk) (unbottle : Bool) (c : Connection)
    → IsChunk chunk
    → IsConnection c
    → Goes (tcp_write chunk unbottle c)
unfolding tcp_write add_chunk malloc_copy
write-IsConnection wrong unbottle c h k = absurd (cc)
write-IsConnection (text s) unbottle c h k =
    let r = current c.writer.wreq in
    let room : ltb r.bufcnt buffer_max_chunks ≡ true = ground (arith, k.room) in
    rw (room, tcp_write, add_chunk)
      (
        _,
        refl,
        flush-IsConnection c (if unbottle then false else c.writer.bottle_mode) _ _
            (text-Accounts s r c.in_flight c.memory k.accounts k.room),
      )
write-IsConnection (buffer ms) unbottle c h k =
    let r = current c.writer.wreq in
    let room : ltb r.bufcnt buffer_max_chunks ≡ true = ground (arith, k.room) in
    rw (room, tcp_write, add_chunk)
      (
        _,
        refl,
        flush-IsConnection c (if unbottle then false else c.writer.bottle_mode) _ _
            (buffer-Accounts ms r c.in_flight c.memory k.accounts k.room),
      )

after_write-IsConnection : (c : Connection) → IsConnection c → Goes (tcp_after_write c)
unfolding tcp_after_write
after_write-IsConnection c k = go c.in_flight refl k.accounts.flying k.accounts.exact
  where
    go :
        (rs : List WriteReq)
        → c.in_flight ≡ rs
        → AllRequests rs
        → ((a : ℕ)
            → count a (addresses (current c.writer.wreq)) + count a (all_addresses rs)
              ≡ alive a c.memory)
        → Goes (tcp_after_write c)
    go [] e h x = rw (e, tcp_after_write) (c, refl, k)
    go (r ∷ rs) e (g, h) x =
        let (m, f, n, freed) =
          after_write_lem r c.memory g
            (λ a. omega (arith, x a, append_count (all_addresses rs) (addresses r) a)) in
        rw (e, tcp_after_write, f)
          (
            record c { memory = m; in_flight = rs },
            refl,
            record {
              accounts = record {
                request = k.accounts.request;
                flying = h;
                exact = λ a.
                    omega (arith, x a, freed a, append_count (all_addresses rs) (addresses r) a);
                fresh = λ a l. omega (arith, freed a, k.accounts.fresh a (omega (arith, n, l)));
              };
              room = k.room;
            },
          )

steps-IsConnection :
    (ss : List Step) (c : Connection) → AreChunks ss → IsConnection c → Goes (steps ss c)
unfolding steps step tcp_bottle
steps-IsConnection [] c h k = (c, refl, k)
steps-IsConnection (write chunk unbottle ∷ ss) c (g, h) k =
    let (c', e, k') = write-IsConnection chunk unbottle c g k in
    rw (e, steps) (steps-IsConnection ss c' h k')
steps-IsConnection (bottle ∷ ss) c h k =
    steps-IsConnection ss (tcp_bottle c) h (record { accounts = k.accounts; room = k.room })
steps-IsConnection (after_write ∷ ss) c h k =
    let (c', e, k') = after_write-IsConnection c k in rw (e, steps) (steps-IsConnection ss c' h k')

opened-IsConnection : IsConnection opened
unfolding owned
opened-IsConnection = record {
  accounts = record {
    request = empty-IsRequest;
    flying = tt;
    exact = λ a. omega arith;
    fresh = λ a h. refl;
  };
  room = omega arith;
}

-- Whatever strings and buffers are written to a new connection, bottled or not, and however the
-- callbacks of `uv_write` come in between, no place outside of `bufs` is used, and nothing is freed
-- that is not in use or that `malloc` did not give. In each state that is reached, the memory in use is
-- what the request that is filled and those in flight have marked, each address once; and the former
-- has room for a chunk.
pub steps-IsConnection-opened :
    (ss : List Step) → AreChunks ss → (c : Connection) × (steps ss opened ≡ some c) × IsConnection c
steps-IsConnection-opened ss h = steps-IsConnection ss opened h opened-IsConnection
