-- ===== src/Json/Document/Decodes.antt =====
-- `json_decode` on the text of a document.
use lev.Json.Strbuf.{strbuf_fits, strbuf_fits_lem}
use lev.Json.Document.Text.{json_text, encoded-json_text}
use lev.Json.Strings.{json_append_string}
use lev.Json.Strings.RoundTrip.{at}
use lev.Json.Strings.{escape_bytes, escape_byte, char2escape}
use lev.Json.Token.{end_of_text}
use lev.Base.{
  leb, ◌&&◌, ℕ, List, ◌≡◌, ◌∷◌, [], ◌++◌, zero, suc, true, false, Bool, arith, refl, inr, ◌+◌, ◌≤◌,
  ◌∙◌, ◌==◌, ◌||◌, length, append-nil, sym, append_assoc, ◌<◌, ◌*◌, some,
}
use lev.Json.Value.{Platform, JsonConfig, no_fields}
use lev.Json.Token.{ok, ch2token, json_next_token, skip_whitespace, front_token}
use lev.Json.Document.{
  Json, Items, Members, null, boolean, number, string, array, object, no_items, item, no_members,
  member, IsDelimited, json_append_string, encoded, number_text, encoded_items, lua,
  encoded_members,
}
use lev.Json.Decode.{json_decode, after_value, decode_text}
use lev.Json.Strings.{peek}
use lev.Json.Document.{IsDocument, AreDocuments, AreMembers}
use lev.Json.Document.Tables.{AllFresh, Fresh}
use lev.Json.Document.Tokens.{
  text, ReadsAs, null-ReadsAs, boolean-ReadsAs, string-ReadsAs, number-ReadsAs,
}
use lev.Json.Document.Arrays
use lev.Json.Document.Objects
use lev.Json.Document.Arrays.{first_item, array-ReadsAs}
use lev.Json.Document.Objects.{first_member, object-ReadsAs, empty_object-ReadsAs}

module _ (c : Platform) (cfg : JsonConfig) (room : (d : ℕ) → c.checkstack d ≡ true) where
  AllFresh-no_fields : (ms : Members) → AllFresh no_fields ms
  unfolding AllFresh Fresh
  AllFresh-no_fields no_members = tt
  AllFresh-no_fields (member k x ms) = (tt, AllFresh-no_fields ms)

  mutual
    unfolding IsDocument encoded lua

    value-ReadsAs :
        (left depth : ℕ) (d : Json) (rest : List ℕ)
        → IsDocument c cfg left d
        → IsDelimited rest
        → ReadsAs c cfg left depth (text c cfg d) rest (lua d)
    value-ReadsAs left depth null rest h e = null-ReadsAs c cfg left depth rest
    value-ReadsAs left depth (boolean b) rest h e = boolean-ReadsAs c cfg left depth rest b
    value-ReadsAs left depth (string s) rest h e = string-ReadsAs c cfg left depth rest s h
    value-ReadsAs left depth (number n) rest h e =
        rw h.shape (number-ReadsAs c cfg left depth rest n h e)
    value-ReadsAs zero depth (array xs) rest h e = absurd h
    value-ReadsAs zero depth (object ms) rest h e = absurd h
    value-ReadsAs (suc left) depth (array no_items) rest h e = absurd h
    value-ReadsAs (suc left) depth (array (item x xs)) rest (small, hx, hxs) e =
        array-ReadsAs c cfg left depth x xs rest (room (suc depth)) (
          first_item c cfg left (suc depth) x xs (λ r e'. value-ReadsAs left (suc depth) x r hx e')
            (items-ReadsTail left (suc depth) xs hxs))
    value-ReadsAs (suc left) depth (object no_members) rest h e =
        empty_object-ReadsAs c cfg left depth rest (room (suc depth))
    value-ReadsAs (suc left) depth (object (member k x ms)) rest (hk, u, hx, h) e =
        object-ReadsAs c cfg left depth k x ms rest (room (suc depth))
          (AllFresh-no_fields (member k x ms))
          (first_member c cfg left (suc depth) k x ms hk u
            (λ r e'. value-ReadsAs left (suc depth) x r hx e')
            (members-ReadsTail left (suc depth) ms h))

    items-ReadsTail :
        (left depth : ℕ) (xs : Items)
        → AreDocuments c cfg left xs
        → Arrays.ReadsTail c cfg left depth xs
    items-ReadsTail left depth no_items h = tt
    items-ReadsTail left depth (item x xs) (hx, h) =
        first_item c cfg left depth x xs (λ r e. value-ReadsAs left depth x r hx e)
          (items-ReadsTail left depth xs h)

    members-ReadsTail :
        (left depth : ℕ) (ms : Members)
        → AreMembers c cfg left ms
        → Objects.ReadsTail c cfg left depth ms
    members-ReadsTail left depth no_members h = tt
    members-ReadsTail left depth (member k x ms) (hk, u, hx, h) =
        first_member c cfg left depth k x ms hk u (λ r e. value-ReadsAs left depth x r hx e)
          (members-ReadsTail left depth ms h)

  -- No text of a document starts with a NUL, and none has one behind its first byte.
  escaped-front : (s r : List ℕ) → (peek ((escape_bytes s ++ 34 ∷ []) ++ r) 0 == 0) ≡ false
  unfolding escape_bytes escape_byte char2escape
  escaped-front [] r = refl
  escaped-front (k ∷ s) r = ground arith

  first-encoded :
      (left : ℕ) (d : Json) (r : List ℕ)
      → IsDocument c cfg left d
      → (peek (text c cfg d ++ r) 0 == 0) ≡ false
  unfolding encoded IsDocument json_append_string
  first-encoded left null r h = refl
  first-encoded left (boolean true) r h = refl
  first-encoded left (boolean false) r h = refl
  first-encoded left (number n) r h = rw h.shape (ground (arith, h.numeric))
  first-encoded left (string s) r h = refl
  first-encoded left (array xs) r h = refl
  first-encoded left (object ms) r h = refl

  -- What `json_decode` asks of the first two bytes.
  abbrev not_utf8 : List ℕ → Bool
  not_utf8 s = leb 2 (length s) && (peek s 0 == 0 || peek s 1 == 0)

  two_bytes :
      (k : ℕ) (t : List ℕ) → (k == 0) ≡ false → (peek t 0 == 0) ≡ false → not_utf8 (k ∷ t) ≡ false
  two_bytes k [] e h = refl
  two_bytes k (x ∷ t) e h = ground arith

  front-encoded : (left : ℕ) (d : Json) → IsDocument c cfg left d → not_utf8 (text c cfg d) ≡ false
  unfolding encoded IsDocument json_append_string
  front-encoded left null h = refl
  front-encoded left (boolean true) h = refl
  front-encoded left (boolean false) h = refl
  front-encoded left (number n) h = rw h.shape (ground (arith, h.numeric, h.plain))
  front-encoded left (string s) h =
      two_bytes 34 (escape_bytes s ++ 34 ∷ []) refl
        (rw (sym (append-nil (escape_bytes s ++ 34 ∷ []))) (escaped-front s []))
  front-encoded zero (array xs) h = absurd h
  front-encoded (suc left) (array no_items) h = absurd h
  front-encoded (suc left) (array (item x xs)) (small, hx, hxs) =
      let more = encoded_items (number_text c cfg) true xs in
      two_bytes b'[' ((text c cfg x ++ more) ++ b']' ∷ []) refl (
        rw (append_assoc (text c cfg x) more (b']' ∷ []))
          (first-encoded left x (more ++ b']' ∷ []) hx))
  front-encoded left (object no_members) h = refl
  front-encoded left (object (member k x ms)) h =
      two_bytes b'{' (encoded_members (number_text c cfg) false (member k x ms) ++ b'}' ∷ []) refl
        refl

  nul_ends :
      (rest : List ℕ) (ofs : ℕ)
      → peek rest 0 ≡ 0
      → json_next_token c cfg (at rest ofs) ≡ ok (end_of_text, ofs, at rest ofs)
  unfolding json_next_token front_token skip_whitespace ch2token
  nul_ends [] ofs h = refl
  nul_ends (zero ∷ rest) ofs h = refl
  nul_ends (suc x ∷ rest) ofs h = absurd (omega (arith, h))

  -- A document and what is not read.
  decode-front :
      (d : Json) (rest : List ℕ)
      → IsDocument c cfg cfg.decode_max_depth d
      → peek rest 0 ≡ 0
      → not_utf8 (text c cfg d ++ rest) ≡ false
      → length (text c cfg d ++ rest) < 1024 * 1024
      → json_decode c cfg (text c cfg d ++ rest) ≡ some (ok (lua d))
  unfolding json_decode decode_text ReadsAs after_value
  decode-front d rest h nul front small =
      let fits : strbuf_fits (length (text c cfg d ++ rest)) ≡ true = strbuf_fits_lem _ small in
      let (l, e, s, p) = value-ReadsAs cfg.decode_max_depth 0 d rest h (inr (inr (inr nul))) 0 in
      rw (front, fits, e, p, nul_ends rest (0 + length (text c cfg d)) nul) refl

long_front :
    (t r : List ℕ)
    → 2 ≤ length t
    → (leb 2 (length (t ++ r)) && (peek (t ++ r) 0 == 0 || peek (t ++ r) 1 == 0))
      ≡ (leb 2 (length t) && (peek t 0 == 0 || peek t 1 == 0))
long_front [] r h = absurd (omega arith)
long_front (a ∷ []) r h = absurd (omega arith)
long_front (a ∷ b ∷ t) r h = ground arith

-- `json_decode` reads the text of a document of fewer than 2^20 bytes as its Lua value, where
-- `lua_checkstack` does not fail: for a document of at most `decode_max_depth` levels (`IsDocument`).
pub decode-encoded :
    (c : Platform) (cfg : JsonConfig) (d : Json)
    → ((depth : ℕ) → c.checkstack depth ≡ true)
    → IsDocument c cfg cfg.decode_max_depth d
    → length (encoded (number_text c cfg) d) < 1024 * 1024
    → json_decode c cfg (encoded (number_text c cfg) d) ≡ some (ok (lua d))
decode-encoded c cfg d room h small = rw (sym (append-nil (text c cfg d))) (
    decode-front c cfg room d [] h refl
      (rw (append-nil (text c cfg d)) (front-encoded c cfg room cfg.decode_max_depth d h))
      (rw (append-nil (text c cfg d)) small))

-- Behind the text of a document of at least two bytes, a NUL ends what `json_decode` reads: whatever
-- follows the NUL, the result is the document's Lua value and no error, where all is fewer than 2^20
-- bytes. `lua_checkstack` does not fail, and the document has at most `decode_max_depth` levels
-- (`IsDocument`).
pub decode-nul :
    (c : Platform) (cfg : JsonConfig) (d : Json) (others : List ℕ)
    → ((depth : ℕ) → c.checkstack depth ≡ true)
    → IsDocument c cfg cfg.decode_max_depth d
    → 2 ≤ length (json_text (number_text c cfg) d)
    → length (json_text (number_text c cfg) d ++ 0 ∷ others) < 1024 * 1024
    → json_decode c cfg (json_text (number_text c cfg) d ++ 0 ∷ others) ≡ some (ok (lua d))
decode-nul c cfg d others room h two small =
    let same : text c cfg d ≡ json_text (number_text c cfg) d =
      encoded-json_text c cfg cfg.decode_max_depth d h in
    let two' : 2 ≤ length (text c cfg d) = rw same two in
    let small' : length (text c cfg d ++ 0 ∷ others) < 1024 * 1024 = rw same small in
    rw (sym same) (
      decode-front c cfg room d (0 ∷ others) h refl
        (long_front (text c cfg d) (0 ∷ others) two'
          ∙ front-encoded c cfg room cfg.decode_max_depth d h)
        small')
