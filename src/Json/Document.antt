-- ===== src/Json/Document.antt =====
-- JSON documents, and the Lua values that stand for them. `encoded` is the text in the parts that the
-- encoder appends; `Json.Document.Text` has the text of a document written without the code.
pub mod Text
pub mod Encodes
pub mod Tables
pub mod Tokens
pub mod Arrays
pub mod Objects
pub mod Decodes
use lev.Json.Token.{is_digit, json_is_invalid_number}
use lev.Json.Strings.RoundTrip.{AllBytes}
use lev.Json.Encode.{separator, is_special_number}
use lev.Json.Decode.{bytes_eq}
use lev.Json.Strings.{json_append_string, peek}
use lev.Mpack.Value.{Number, integer}
use lev.Base.{
  leb, ℕ, List, ◌≡◌, ◌∷◌, [], ◌++◌, zero, suc, true, false, Bool, ◌⊎◌, ◌<◌, ◌==◌, ◌^◌, ◌||◌, not,
  ◌&&◌, length,
}
use lev.Base.Int.{pos}
use lev.Json.Value.{Value, Fields, Platform, JsonConfig, no_fields, field}

mutual
  pub data Json : Type 0 where
    null : Json
    boolean : Bool → Json
    number : Number → Json
    string : List ℕ → Json
    array : Items → Json
    object : Members → Json

  pub data Items : Type 0 where
    no_items : Items
    item : Json → Items → Items

  pub data Members : Type 0 where
    no_members : Members
    member : List ℕ → Json → Members → Members

abbrev pub items_length : Items → ℕ
items_length no_items = 0
items_length (item x xs) = suc (items_length xs)

abbrev pub members_length : Members → ℕ
members_length no_members = 0
members_length (member k x ms) = suc (members_length ms)

-- The Lua value of a document: an array is a table with the keys 1, 2, … in order, an object a table
-- with its keys in order.
unfoldable mutual
  pub lua : Json → Value
  lua null = Value.null
  lua (boolean b) = Value.boolean b
  lua (number n) = Value.number n
  lua (string s) = Value.string s
  lua (array xs) = Value.table (lua_items 1 xs)
  lua (object ms) = Value.table (lua_members ms)

  pub lua_items : ℕ → Items → Fields
  lua_items i no_items = no_fields
  lua_items i (item x xs) = field (Value.number (integer (pos i))) (lua x) (lua_items (suc i) xs)

  pub lua_members : Members → Fields
  lua_members no_members = no_fields
  lua_members (member k x ms) = field (Value.string k) (lua x) (lua_members ms)

-- The text of a document, with no whitespace, over the text of a number, with its strings as
-- `json_append_string` writes them; `Json.Document.Text` has it without the code.
module _ (num : Number → List ℕ) where
  unfoldable mutual
    pub encoded : Json → List ℕ
    encoded null = b'n' ∷ b'u' ∷ b'l' ∷ b'l' ∷ []
    encoded (boolean true) = b't' ∷ b'r' ∷ b'u' ∷ b'e' ∷ []
    encoded (boolean false) = b'f' ∷ b'a' ∷ b'l' ∷ b's' ∷ b'e' ∷ []
    encoded (number n) = num n
    encoded (string s) = json_append_string s
    encoded (array xs) = b'[' ∷ (encoded_items false xs ++ b']' ∷ [])
    encoded (object ms) = b'{' ∷ (encoded_members false ms ++ b'}' ∷ [])

    -- With a comma before each element, but for the first.
    pub encoded_items : Bool → Items → List ℕ
    encoded_items comma no_items = []
    encoded_items comma (item x xs) = (separator comma ++ encoded x) ++ encoded_items true xs

    pub encoded_members : Bool → Members → List ℕ
    encoded_members comma no_members = []
    encoded_members comma (member k x ms) =
        ((separator comma ++ (json_append_string k ++ b':' ∷ [])) ++ encoded x)
        ++ encoded_members true ms

-- The text of a number that the settings ask for.
abbrev pub number_text : Platform → JsonConfig → Number → List ℕ
number_text c cfg = c.g_fmt cfg.encode_number_precision

-- What ends a number: a comma, a closing bracket, or the end of the text.
abbrev pub IsDelimited : List ℕ → Type 0
IsDelimited rest =
    (peek rest 0 ≡ b',') ⊎ (peek rest 0 ≡ b']') ⊎ (peek rest 0 ≡ b'}') ⊎ (peek rest 0 ≡ 0)

-- A number that survives: it is finite, its text starts with a minus sign or a digit and is JSON where
-- the settings ask for it, its second byte is not 0, and `strtod` reads it back and stops behind it.
pub record IsExact (c : Platform) (cfg : JsonConfig) (n : Number) : Type 0 where
  pub finite : is_special_number n ≡ false
  pub first : ℕ
  pub others : List ℕ
  pub shape : c.g_fmt cfg.encode_number_precision n ≡ first ∷ others
  pub numeric : (first == b'-' || is_digit first) ≡ true
  pub plain : (leb 1 (length others) && (peek others 0 == 0)) ≡ false
  pub valid :
      (rest : List ℕ)
      → IsDelimited rest
      → (not cfg.decode_invalid_numbers && json_is_invalid_number ((first ∷ others) ++ rest))
        ≡ false
  pub read :
      (rest : List ℕ)
      → IsDelimited rest
      → c.strtod ((first ∷ others) ++ rest) ≡ (n, length (first ∷ others))

-- No member has the key.
abbrev pub Unused : List ℕ → Members → Type 0
Unused k no_members = Unit
Unused k (member j x ms) = (bytes_eq k j ≡ false) × Unused k ms

-- A document that a Lua value stands for, of at most `left` levels: its strings are bytes, its numbers
-- survive, its arrays are not empty and have at most 2^31 - 1 elements, and no object has a key twice.
unfoldable mutual
  pub IsDocument : Platform → JsonConfig → ℕ → Json → Type 0
  IsDocument c cfg left null = Unit
  IsDocument c cfg left (boolean b) = Unit
  IsDocument c cfg left (number n) = IsExact c cfg n
  IsDocument c cfg left (string s) = AllBytes s
  IsDocument c cfg zero (array xs) = ⊥
  IsDocument c cfg (suc left) (array no_items) = ⊥
  IsDocument c cfg (suc left) (array (item x xs)) =
      (suc (items_length xs) < 2 ^ 31) × IsDocument c cfg left x × AreDocuments c cfg left xs
  IsDocument c cfg zero (object ms) = ⊥
  IsDocument c cfg (suc left) (object ms) = AreMembers c cfg left ms

  pub AreDocuments : Platform → JsonConfig → ℕ → Items → Type 0
  AreDocuments c cfg left no_items = Unit
  AreDocuments c cfg left (item x xs) = IsDocument c cfg left x × AreDocuments c cfg left xs

  pub AreMembers : Platform → JsonConfig → ℕ → Members → Type 0
  AreMembers c cfg left no_members = Unit
  AreMembers c cfg left (member k x ms) =
      AllBytes k × Unused k ms × IsDocument c cfg left x × AreMembers c cfg left ms
