-- ===== src/Json/Document/Text.antt =====
-- The text of a document, written from the JSON format and not from the code.
use lev.Json.Value.{Platform, JsonConfig}
use lev.Json.Strings.RoundTrip.{AllBytes}
use lev.Json.Decode.{bytes_eq}
use lev.Mpack.Value.{Number}
use lev.Base.{
  ℕ, List, [], ◌∷◌, ◌++◌, Option, none, some, Bool, true, false, ◌≡◌, refl, if◌then◌else◌, ◌==◌,
  ◌||◌, ltb, ◌/◌, ◌%◌, get_or, all_below_sound, ◌<◌, zero, suc, ==_iff, arith,
}
use lev.Json.Document.{
  Json, Items, Members, null, boolean, number, string, array, object, no_items, item, no_members,
  member, encoded, encoded_items, encoded_members, number_text, IsDocument, AreDocuments,
  AreMembers, AllBytes, Number, Platform, bytes_eq, JsonConfig,
}
use lev.Json.Strings.{json_append_string, escape_byte, escape_bytes, char2escape}

-- The escapes of two characters, by their byte.
abbrev short_escapes : List (ℕ × ℕ)
short_escapes =
    (34, 34)
    ∷ (92, 92)
    ∷ (47, 47)
    ∷ (8, b'b')
    ∷ (12, b'f')
    ∷ (10, b'n')
    ∷ (13, b'r')
    ∷ (9, b't')
    ∷ []

abbrev hexadecimal : List ℕ
hexadecimal =
    b'0' ∷ b'1' ∷ b'2' ∷ b'3' ∷ b'4' ∷ b'5' ∷ b'6' ∷ b'7' ∷ b'8' ∷ b'9' ∷ b'a' ∷ b'b' ∷ b'c' ∷ b'd'
    ∷ b'e' ∷ b'f' ∷ []

abbrev lookup : ℕ → List (ℕ × ℕ) → Option ℕ
lookup c [] = none
lookup c ((byte, letter) ∷ es) = if c == byte then some letter else lookup c es

-- A character of a string: a control character and DEL by its number, where it has no short escape.
abbrev character_text : ℕ → List ℕ
character_text c = elim (lookup c short_escapes) [
  | some letter ↦ 92 ∷ letter ∷ []
  | none ↦
      if ltb c 32 || c == 127
      then 92
        ∷ b'u'
        ∷ b'0'
        ∷ b'0'
        ∷ get_or hexadecimal (c / 16) 0
        ∷ get_or hexadecimal (c % 16) 0
        ∷ []
      else c ∷ []
]

abbrev characters_text : List ℕ → List ℕ
characters_text [] = []
characters_text (c ∷ cs) = character_text c ++ characters_text cs

abbrev string_text : List ℕ → List ℕ
string_text s = 34 ∷ (characters_text s ++ 34 ∷ [])

abbrev comma_text : Bool → List ℕ
comma_text true = b',' ∷ []
comma_text false = []

module _ (num : Number → List ℕ) where
  unfoldable mutual
    pub json_text : Json → List ℕ
    json_text null = b'n' ∷ b'u' ∷ b'l' ∷ b'l' ∷ []
    json_text (boolean true) = b't' ∷ b'r' ∷ b'u' ∷ b'e' ∷ []
    json_text (boolean false) = b'f' ∷ b'a' ∷ b'l' ∷ b's' ∷ b'e' ∷ []
    json_text (number n) = num n
    json_text (string s) = string_text s
    json_text (array xs) = b'[' ∷ (items_text false xs ++ b']' ∷ [])
    json_text (object ms) = b'{' ∷ (members_text false ms ++ b'}' ∷ [])

    -- With a comma before each element, but for the first.
    items_text : Bool → Items → List ℕ
    items_text comma no_items = []
    items_text comma (item x xs) = (comma_text comma ++ json_text x) ++ items_text true xs

    members_text : Bool → Members → List ℕ
    members_text comma no_members = []
    members_text comma (member k x ms) =
        ((comma_text comma ++ (string_text k ++ b':' ∷ [])) ++ json_text x) ++ members_text true ms

bytes_eq_sound : (s t : List ℕ) → bytes_eq s t ≡ true → s ≡ t
bytes_eq_sound [] [] e = refl
bytes_eq_sound [] (b ∷ t) e = absurd (cc)
bytes_eq_sound (a ∷ s) [] e = absurd (cc)
bytes_eq_sound (a ∷ s) (b ∷ t) e =
    let h : (a == b) ≡ true = ground arith in
    let k : bytes_eq s t ≡ true = ground arith in rw ((==_iff a b).0 h, bytes_eq_sound s t k) refl

byte-character_text : (c : ℕ) → c < 256 → escape_byte c ≡ character_text c
unfolding escape_byte char2escape
byte-character_text c l =
    bytes_eq_sound _ _
      (all_below_sound 256 (λ b. bytes_eq (escape_byte b) (character_text b)) c refl l)

bytes-characters_text : (s : List ℕ) → AllBytes s → escape_bytes s ≡ characters_text s
unfolding escape_bytes
bytes-characters_text [] h = refl
bytes-characters_text (c ∷ s) (l, h) = rw (byte-character_text c l, bytes-characters_text s h) refl

string-string_text : (s : List ℕ) → AllBytes s → json_append_string s ≡ string_text s
unfolding json_append_string
string-string_text s h = rw (bytes-characters_text s h) refl

module _ (c : Platform) (cfg : JsonConfig) where
  mutual
    unfolding encoded json_text IsDocument

    pub encoded-json_text :
        (left : ℕ) (d : Json)
        → IsDocument c cfg left d
        → encoded (number_text c cfg) d ≡ json_text (number_text c cfg) d
    encoded-json_text left null h = refl
    encoded-json_text left (boolean true) h = refl
    encoded-json_text left (boolean false) h = refl
    encoded-json_text left (number n) h = refl
    encoded-json_text left (string s) h = string-string_text s h
    encoded-json_text zero (array xs) h = absurd h
    encoded-json_text zero (object ms) h = absurd h
    encoded-json_text (suc left) (array no_items) h = absurd h
    encoded-json_text (suc left) (array (item x xs)) (small, hx, hs) =
        rw (encoded-items_text left false (item x xs) (hx, hs)) refl
    encoded-json_text (suc left) (object ms) h = rw (encoded-members_text left false ms h) refl

    encoded-items_text :
        (left : ℕ) (comma : Bool) (xs : Items)
        → AreDocuments c cfg left xs
        → encoded_items (number_text c cfg) comma xs ≡ items_text (number_text c cfg) comma xs
    encoded-items_text left comma no_items h = refl
    encoded-items_text left true (item x xs) (h, hs) =
        rw (encoded-json_text left x h, encoded-items_text left true xs hs) refl
    encoded-items_text left false (item x xs) (h, hs) =
        rw (encoded-json_text left x h, encoded-items_text left true xs hs) refl

    encoded-members_text :
        (left : ℕ) (comma : Bool) (ms : Members)
        → AreMembers c cfg left ms
        → encoded_members (number_text c cfg) comma ms ≡ members_text (number_text c cfg) comma ms
    encoded-members_text left comma no_members h = refl
    encoded-members_text left true (member k x ms) (hk, u, h, hs) =
        rw
          (
            string-string_text k hk,
            encoded-json_text left x h,
            encoded-members_text left true ms hs,
          )
          refl
    encoded-members_text left false (member k x ms) (hk, u, h, hs) =
        rw
          (
            string-string_text k hk,
            encoded-json_text left x h,
            encoded-members_text left true ms hs,
          )
          refl
