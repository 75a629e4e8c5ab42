-- ===== src/Mpack/RoundTrip/Keys.antt =====
-- The pairs that `lua_rawset` puts into a table, if their keys differ.
use lev.Base.{Bool, false, ◌||◌, ◌≡◌, refl, ◌∙◌, ap, arith}
use lev.Mpack.Value.{Value, Fields, no_fields, field}
use lev.Mpack.Reader.{same_key, lua_rawset, is_nil}

-- Pairs that are set in a table one after the other.
abbrev pub set_all : Fields → Fields → Fields
set_all no_fields t = t
set_all (field k v fs) t = set_all fs (lua_rawset k v t)

abbrev has_key : Value → Fields → Bool
has_key k no_fields = false
has_key k (field k' v fs) = let rest = has_key k fs in same_key k k' || rest

-- A pair behind others, and pairs behind others.
abbrev add : Value → Value → Fields → Fields
add k v no_fields = field k v no_fields
add k v (field k' v' fs) = field k' v' (add k v fs)

abbrev concat : Fields → Fields → Fields
concat no_fields gs = gs
concat (field k v fs) gs = field k v (concat fs gs)

-- Each key differs from those of a table and those before it, and no value is nil.
abbrev pub AreSettable : Fields → Fields → Type 0
AreSettable t no_fields = Unit
AreSettable t (field k v fs) =
    (is_nil v ≡ false) × (has_key k t ≡ false) × AreSettable (add k v t) fs

rawset-add :
    (k v : Value) (t : Fields)
    → is_nil v ≡ false
    → has_key k t ≡ false
    → lua_rawset k v t ≡ add k v t
unfolding lua_rawset
rawset-add k v no_fields n h = rw n refl
rawset-add k v (field k' v' fs) n h =
    let new : same_key k k' ≡ false = ground (arith, h) in
    let others : has_key k fs ≡ false = ground (arith, h) in
    rw (new, rawset-add k v fs n others) refl

concat-add : (k v : Value) (t fs : Fields) → concat (add k v t) fs ≡ concat t (field k v fs)
concat-add k v no_fields fs = refl
concat-add k v (field k' v' t) fs = ap (λ r. field k' v' r) (concat-add k v t fs)

set_all-concat : (fs t : Fields) → AreSettable t fs → set_all fs t ≡ concat t fs
set_all-concat no_fields t h = go t
  where
    go : (t : Fields) → t ≡ concat t no_fields
    go no_fields = refl
    go (field k v t) = ap (λ r. field k v r) (go t)
set_all-concat (field k v fs) t (n, new, h) =
    rw (rawset-add k v t n new) (set_all-concat fs (add k v t) h) ∙ concat-add k v t fs

pub set_all_fields : (fs : Fields) → AreSettable no_fields fs → set_all fs no_fields ≡ fs
set_all_fields fs h = set_all-concat fs no_fields h
