-- ===== src/Json/Document/Tables.antt =====
-- The pairs of a table that `json_decode` fills, and keys that it does not have yet.
use lev.Json.Decode.{bytes_eq, raw_set, raw_set_new}
use lev.Mpack.Value.{integer}
use lev.Base.{ℕ, List, ◌≡◌, false, refl, ap}
use lev.Base.Int.{pos}
use lev.Json.Value.{Value, Fields, no_fields, field}
use lev.Json.Document.{Members, no_members, member, Unused}

-- Pairs behind others.
unfoldable pub fields_append : Fields → Fields → Fields
fields_append no_fields fs = fs
fields_append (field k v t) fs = field k v (fields_append t fs)

pub append-raw_set_new :
    (i : ℕ) (v : Value) (t fs : Fields)
    → fields_append (raw_set_new i v t) fs
      ≡ fields_append t (field (Value.number (integer (pos i))) v fs)
unfolding fields_append raw_set_new
append-raw_set_new i v no_fields fs = refl
append-raw_set_new i v (field k w t) fs = ap (field k w) (append-raw_set_new i v t fs)

pub append-no_fields : (t : Fields) → fields_append t no_fields ≡ t
unfolding fields_append
append-no_fields no_fields = refl
append-no_fields (field k v t) = ap (field k v) (append-no_fields t)

-- A table with string keys, and none of them the key.
unfoldable pub Fresh : List ℕ → Fields → Type 0
Fresh k no_fields = Unit
Fresh k (field (Value.string j) v t) = (bytes_eq j k ≡ false) × Fresh k t
Fresh k (field Value.nil v t) = ⊥
Fresh k (field _ v t) = ⊥

pub append-raw_set :
    (k : List ℕ) (v : Value) (t fs : Fields)
    → Fresh k t
    → fields_append (raw_set k v t) fs ≡ fields_append t (field (Value.string k) v fs)
unfolding fields_append raw_set Fresh
append-raw_set k v no_fields fs h = refl
append-raw_set k v (field (Value.string j) w t) fs (e, h) =
    rw e (ap (field (Value.string j) w) (append-raw_set k v t fs h))
append-raw_set k v (field Value.nil w t) fs h = absurd h
append-raw_set k v (field _ w t) fs h = absurd h

-- The keys of all members are fresh.
unfoldable pub AllFresh : Fields → Members → Type 0
AllFresh t no_members = Unit
AllFresh t (member k x ms) = Fresh k t × AllFresh t ms

Fresh-raw_set :
    (k j : List ℕ) (v : Value) (t : Fields)
    → bytes_eq j k ≡ false
    → Fresh j t
    → Fresh k t
    → Fresh k (raw_set j v t)
unfolding Fresh raw_set
Fresh-raw_set k j v no_fields e g h = (e, tt)
Fresh-raw_set k j v (field (Value.string i) w t) e (g₀, g) (h₀, h) =
    rw g₀ (h₀, Fresh-raw_set k j v t e g h)
Fresh-raw_set k j v (field Value.nil w t) e g h = absurd g
Fresh-raw_set k j v (field _ w t) e g h = absurd g

pub AllFresh-raw_set :
    (j : List ℕ) (v : Value) (t : Fields) (ms : Members)
    → Unused j ms
    → Fresh j t
    → AllFresh t ms
    → AllFresh (raw_set j v t) ms
unfolding AllFresh
AllFresh-raw_set j v t no_members u g h = tt
AllFresh-raw_set j v t (member k x ms) (e, u) g (h₀, h) =
    (Fresh-raw_set k j v t e g h₀, AllFresh-raw_set j v t ms u g h)

pub pair : {A B : Type 0} {a a' : A} {b b' : B} → a ≡ a' → b ≡ b' → ◌≡◌ {A = A × B} (a, b) (a', b')
pair p q = λ i. (p i, q i)
