-- ===== src/Examples/Texts.antt =====
-- JSON at concrete texts and documents.
use lev.Json.Document.Text.{json_text}
use lev.Base.{
  none, ℕ, List, true, some, refl, arith, ◌≡◌, ◌∷◌, [], ◌++◌, ◌==◌, ◌&&◌, if◌then◌else◌, length,
  ◌<◌,
}
use lev.Base.Int.{pos}
use lev.Mpack.Value
use lev.Mpack.Value.{Number}
use lev.Json.Value.{Platform, default_config}
use lev.Json.Strings.{json_next_string_token, json_append_unicode_escape, append}
use lev.Json.Strings.Utf8.{unicode_escape-escape_codepoint, decode_utf8, escape_codepoint}
use lev.Json.Strbuf.{Strbuf, fill_tmp}
use lev.Json.Strbuf.Room.{IsStrbuf, fill_tmp-IsStrbuf}
use lev.Examples.Shelves.{shared_block, one_block, one_block-IsHeap}
use lev.Slab.{MemBlock}
use lev.Buffer.Memory.{MemSlice, World}
use lev.Buffer.Memory
use lev.Json.Strings.{peek, string_loop, string_step, escape_step, escape2char}
use lev.Json.Token.{ok}
use lev.Json.Token
use lev.Json.Value.{Value as LuaValue}
use lev.Json.Token.Bounds.{Ends, InString}
use lev.Json.Encode
use lev.Json.Decode.{json_decode}
use lev.Json.Decode.Total.{decode-Ends}
use lev.Json.Document.{
  Json, null, boolean, number, string, array, object, no_items, item, no_members, member,
  IsDocument, IsExact, lua,
}
use lev.Json.Document.Decodes.{decode-nul}
use lev.Json.Config.{Function, configure_all, encode_number_precision, encode_max_depth, integer}
use lev.Json.Config.Ranges.{IsConfig, configure_all-IsConfig}

abbrev forty_two : Number
forty_two = Value.Number.integer (pos 42)

abbrev strtod_42 : List ℕ → Number × ℕ
strtod_42 (a ∷ b ∷ s) = if a == b'4' && b == b'2' then (forty_two, 2) else (forty_two, 0)
strtod_42 s = (forty_two, 0)

abbrev platform : Platform
platform = record {
  g_fmt = λ precision n. b'4' ∷ b'2' ∷ [];
  strtod = strtod_42;
  checkstack = λ depth. true;
}

platform-InString : InString platform
platform-InString [] = omega arith
platform-InString (a ∷ []) = omega arith
platform-InString (a ∷ b ∷ s) = ground arith

forty_two-IsExact : IsExact platform default_config forty_two
forty_two-IsExact = record {
  finite = refl;
  first = b'4';
  others = b'2' ∷ [];
  shape = refl;
  numeric = refl;
  plain = refl;
  valid = λ rest d. refl;
  read = λ rest d. refl;
}

-- The text {"a":[42,null,true,"\n"],"b":{}}.
abbrev document : Json
document = object (
    member (b'a' ∷ [])
      (array (
        item (number forty_two)
          (item null (item (boolean true) (item (string (10 ∷ [])) no_items)))))
      (member (b'b' ∷ []) (object no_members) no_members))

document-IsDocument : IsDocument platform default_config 1000 document
unfolding IsDocument
document-IsDocument = (
  (omega arith, tt),
  (refl, tt),
  (omega arith, forty_two-IsExact, (tt, (tt, ((omega arith, tt), tt)))),
  ((omega arith, tt), tt, tt, tt),
)

decode-nul_example :
    json_decode platform default_config (json_text (platform.g_fmt 14) document ++ 0 ∷ b']' ∷ [])
    ≡ some (ok (lua document))
unfolding json_text
decode-nul_example =
    decode-nul platform default_config document (b']' ∷ []) (λ depth. refl) document-IsDocument
      (omega arith) (omega arith)

decode-Ends_example :
    (r : Token.Result LuaValue) × (json_decode platform default_config (b'[' ∷ b'4' ∷ b'x' ∷ [])
      ≡ some r)
    × Ends 3 (λ v. Unit) r
decode-Ends_example =
    decode-Ends platform default_config (b'[' ∷ b'4' ∷ b'x' ∷ []) platform-InString (omega arith)

-- A string with a tab, a quote and a byte that stands for itself.
abbrev three_bytes : List ℕ
three_bytes = 9 ∷ 34 ∷ 200 ∷ []

-- A buffer for a text of 20 bytes.
abbrev tmp : Strbuf
tmp = record { ms = some (record { mb = 7; slice = 0; until = 21 }); length = 0; dynamic = true }

abbrev tmp_block : MemBlock
tmp_block = record shared_block { refcount = pos 1 }

abbrev tmp_world : World
tmp_world = record { heap = one_block tmp_block; static_mb = none }

tmp-IsStrbuf : IsStrbuf 20 tmp tmp_world
tmp-IsStrbuf = (
  record { mb = 7; slice = 0; until = 21 },
  tmp_block,
  refl,
  one_block-IsHeap tmp_block (omega arith),
  (tmp_block, refl, refl, refl),
  refl,
  refl,
  refl,
  omega arith,
)

-- "\t" with its quotes, and a bracket behind it.
abbrev tab_text : List ℕ
tab_text = 34 ∷ 92 ∷ b't' ∷ 34 ∷ b']' ∷ []

fill_tmp-IsStrbuf_example :
    (ms : MemSlice) × (b : MemBlock) × (w' : World) × (tmp.ms ≡ some ms)
    × (fill_tmp ms (9 ∷ []) tmp_world ≡ Memory.Result.ok (1, w'))
    × IsStrbuf 20 tmp w'
    × (w'.heap.block ms.mb ≡ some b)
    × ((i : ℕ) → i < 1 → b.bytes i ≡ peek (9 ∷ []) i)
    × (b.bytes 1 ≡ 0)
unfolding json_next_string_token string_loop string_step escape_step escape2char
fill_tmp-IsStrbuf_example =
    fill_tmp-IsStrbuf 20 tmp tmp_world (record { rest = tab_text; ofs = 0 })
      (record { rest = b']' ∷ []; ofs = 4 }) (9 ∷ []) tmp-IsStrbuf (omega arith) (omega arith) refl

unicode_escape-escape_codepoint_example :
    (utf8 : List ℕ) × (json_append_unicode_escape (escape_codepoint 0x1f600 ++ 34 ∷ [])
      ≡ append utf8 (length (escape_codepoint 0x1f600)))
    × (decode_utf8 utf8 ≡ some 0x1f600)
unicode_escape-escape_codepoint_example =
    unicode_escape-escape_codepoint 0x1f600 (34 ∷ []) (ground arith)

-- A precision that is too large is an error, and a depth is set.
abbrev two_calls : List Function
two_calls = encode_number_precision (integer (pos 15)) ∷ encode_max_depth (integer (pos 7)) ∷ []

configure_all-IsConfig_example : IsConfig (configure_all two_calls default_config)
configure_all-IsConfig_example = configure_all-IsConfig two_calls
