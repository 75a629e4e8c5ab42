-- ===== src/Json/Document/Encodes.antt =====
-- `json_append_data` on the Lua value of a document.
use native.Mathlib.Nat.{mul-suc}
use lev.Mpack.Value.{Number, integer}
use lev.Base.{
  ℕ, List, ◌≡◌, ◌++◌, zero, suc, true, false, Bool, arith, refl, ◌+◌, ◌<◌, ◌∙◌, ltb, ◌&&◌, ◌*◌, ◌^◌,
  some, ap, leb,
}
use lev.Base.Int.{pos}
use lev.Json.Value.{Value, Fields, Platform, JsonConfig, field}
use lev.Json.Encode.{
  ok, ◌then_append◌, Text, append_table, json_append_data, lua_array_length, raw_get, scan_keys,
  append_value, array_key, check_sparse, json_append_object, json_append_array, scanned,
  append_items, append_pairs, append_key, json_append_number,
}
use lev.Json.Document.{
  Json, Items, Members, null, boolean, number, string, array, object, no_items, item, no_members,
  member, lua_items, IsDocument, items_length, lua, lua_members, encoded, AreDocuments,
  encoded_items, AreMembers, encoded_members, IsExact, number_text,
}

-- The indices from m + 1 on, and as many items.
scan-lua_items :
    (xs : Items) (m : ℕ)
    → m + items_length xs < 2 ^ 31
    → scan_keys (lua_items (suc m) xs) m m
      ≡ ok (scanned (m + items_length xs) (m + items_length xs))
unfolding scan_keys lua_items array_key
scan-lua_items no_items m h = ap (λ k. ok (scanned k k)) (omega arith)
scan-lua_items (item x xs) m h =
    let more : ltb m (suc m) ≡ true = ground arith in
    let small : leb (2 ^ 31) (suc m) ≡ false = ground arith in
    rw (more, small)
      (scan-lua_items xs (suc m) (omega arith) ∙ ap (λ k. ok (scanned k k)) (omega arith))

dense : (n ratio : ℕ) → (ltb 0 ratio && ltb (n * ratio) n) ≡ false
dense n zero = refl
dense n (suc r) = ground (arith, mul-suc n r)

array_length-lua_items :
    (cfg : JsonConfig) (xs : Items)
    → items_length xs < 2 ^ 31
    → lua_array_length cfg (lua_items 1 xs) ≡ ok (some (items_length xs))
unfolding lua_array_length check_sparse
array_length-lua_items cfg xs h =
    ground (arith, scan-lua_items xs 0, dense (items_length xs) cfg.encode_sparse_ratio)

-- A table that holds the items from an index on.
abbrev Holds : Fields → ℕ → Items → Type 0
Holds t i no_items = Unit
Holds t i (item x xs) = (raw_get t i ≡ lua x) × Holds t (suc i) xs

Holds_skip :
    (t : Fields) (i j : ℕ) (v : Value) (xs : Items)
    → i < j
    → Holds t j xs
    → Holds (field (Value.number (integer (pos i))) v t) j xs
unfolding raw_get
Holds_skip t i j v no_items lt h = tt
Holds_skip t i j v (item x xs) lt (e, h) =
    (ground arith, Holds_skip t i (suc j) v xs (omega arith) h)

Holds-lua_items : (i : ℕ) (xs : Items) → Holds (lua_items i xs) i xs
unfolding lua_items raw_get
Holds-lua_items i no_items = tt
Holds-lua_items i (item x xs) = (
  ground arith,
  Holds_skip (lua_items (suc i) xs) i (suc i) (lua x) xs (omega arith) (Holds-lua_items (suc i) xs),
)

join : (a b : Text) (xs ys : List ℕ) → a ≡ ok xs → b ≡ ok ys → (a then_append b) ≡ ok (xs ++ ys)
join a b xs ys p q = rw (p, q) refl

module _ (c : Platform) (cfg : JsonConfig) (room : (d : ℕ) → c.checkstack d ≡ true) where
  -- A table of a document, by the loop that its kind has.
  append_array-lem :
      (any : Value → Text) (x : Json) (xs : Items)
      → suc (items_length xs) < 2 ^ 31
      → append_table c cfg any (lua_items 1 (item x xs))
        ≡ json_append_array any (lua_items 1 (item x xs)) (suc (items_length xs))
  unfolding append_table
  append_array-lem any x xs h = rw (array_length-lua_items cfg (item x xs) h, append_table) refl

  append_object-lem :
      (any : Value → Text) (ms : Members)
      → append_table c cfg any (lua_members ms) ≡ json_append_object c cfg any (lua_members ms)
  unfolding append_table lua_array_length scan_keys lua_members array_key check_sparse
  append_object-lem any no_members = ground arith
  append_object-lem any (member k x ms) = refl

  number-encoded :
      (n : Number) → IsExact c cfg n → json_append_number c cfg n ≡ ok (number_text c cfg n)
  unfolding json_append_number
  number-encoded n h = rw h.finite refl

  mutual
    unfolding json_append_data append_value lua encoded IsDocument json_append_array append_items
        json_append_object append_pairs append_key

    data-encoded :
        (left depth : ℕ) (d : Json)
        → IsDocument c cfg left d
        → json_append_data c cfg left depth (lua d) ≡ ok (encoded (number_text c cfg) d)
    data-encoded zero depth null h = refl
    data-encoded (suc left) depth null h = refl
    data-encoded zero depth (boolean true) h = refl
    data-encoded (suc left) depth (boolean true) h = refl
    data-encoded zero depth (boolean false) h = refl
    data-encoded (suc left) depth (boolean false) h = refl
    data-encoded zero depth (string s) h = refl
    data-encoded (suc left) depth (string s) h = refl
    data-encoded zero depth (number n) h = number-encoded n h
    data-encoded (suc left) depth (number n) h = number-encoded n h
    data-encoded zero depth (array xs) h = absurd h
    data-encoded zero depth (object ms) h = absurd h
    data-encoded (suc left) depth (array no_items) h = absurd h
    data-encoded (suc left) depth (array (item x xs)) (small, hx, hxs) =
        rw (room (suc depth), append_array-lem (json_append_data c cfg left (suc depth)) x xs small)
          (rw
            (items-encoded left (suc depth) (lua_items 1 (item x xs)) false 1 (item x xs)
              (Holds-lua_items 1 (item x xs)) (hx, hxs))
            refl)
    data-encoded (suc left) depth (object ms) h =
        rw (room (suc depth), append_object-lem (json_append_data c cfg left (suc depth)) ms)
          (rw (members-encoded left (suc depth) false ms h) refl)

    items-encoded :
        (left depth : ℕ) (t : Fields) (comma : Bool) (i : ℕ) (xs : Items)
        → Holds t i xs
        → AreDocuments c cfg left xs
        → append_items (json_append_data c cfg left depth) t comma i (items_length xs)
          ≡ ok (encoded_items (number_text c cfg) comma xs)
    items-encoded left depth t comma i no_items k h = refl
    items-encoded left depth t comma i (item x xs) (e, k) (hx, hxs) =
        rw (e, data-encoded left depth x hx, items-encoded left depth t true (suc i) xs k hxs) refl

    members-encoded :
        (left depth : ℕ) (comma : Bool) (ms : Members)
        → AreMembers c cfg left ms
        → append_pairs c cfg (json_append_data c cfg left depth) comma (lua_members ms)
          ≡ ok (encoded_members (number_text c cfg) comma ms)
    members-encoded left depth comma no_members h = refl
    members-encoded left depth comma (member k x ms) (hk, u, hx, hms) =
        rw (data-encoded left depth x hx, members-encoded left depth true ms hms) refl
