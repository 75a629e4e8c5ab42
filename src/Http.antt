-- ===== src/Http.antt =====
-- The Lua binding of the HTTP parser, src/lhttp_parser.c. The parser itself is the library that it
-- binds: `Library` has what the binding calls of it.
pub mod Bounds
use Prim.Native.String.{String}
use text.Mathlib.Text.{◌==◌ as str_eq}
use lev.Base.{
  ℕ, List, Option, Bool, none, some, [], ◌∷◌, ◌++◌, if◌then◌else◌, ltb, leb, ◌==◌, drop, take, not,
  ◌+◌,
}
use lev.Base.Int.{ℤ}
use lev.Handle.Receive.{as_size}
use lev.Buffer.Memory.{M, MemSlice, ◌>>=◌, pure, argerror, read, tabulate, size_add}

pub data Method : Type 0 where
  http_delete http_get http_head http_post http_put http_connect http_options http_trace http_copy
        http_lock http_mkcol http_move http_propfind http_proppatch http_unlock http_report
        http_mkactivity http_checkout http_merge http_msearch http_notify http_subscribe
        http_unsubscribe other_method :
      Method

unfoldable pub method_to_str : Method → String
method_to_str http_delete = "DELETE"
method_to_str http_get = "GET"
method_to_str http_head = "HEAD"
method_to_str http_post = "POST"
method_to_str http_put = "PUT"
method_to_str http_connect = "CONNECT"
method_to_str http_options = "OPTIONS"
method_to_str http_trace = "TRACE"
method_to_str http_copy = "COPY"
method_to_str http_lock = "LOCK"
method_to_str http_mkcol = "MKCOL"
method_to_str http_move = "MOVE"
method_to_str http_propfind = "PROPFIND"
method_to_str http_proppatch = "PROPPATCH"
method_to_str http_unlock = "UNLOCK"
method_to_str http_report = "REPORT"
method_to_str http_mkactivity = "MKACTIVITY"
method_to_str http_checkout = "CHECKOUT"
method_to_str http_merge = "MERGE"
method_to_str http_msearch = "MSEARCH"
method_to_str http_notify = "NOTIFY"
method_to_str http_subscribe = "SUBSCRIBE"
method_to_str http_unsubscribe = "UNSUBSCRIBE"
method_to_str other_method = "UNKNOWN_METHOD"

pub data ParserType : Type 0 where
  http_request http_response : ParserType

-- What the binding reads off a `http_parser`, with the answer of `http_should_keep_alive`.
pub record ParserInfo : Type 0 where
  pub type : ParserType
  pub method : Method
  pub status_code : ℕ
  pub http_major : ℕ
  pub http_minor : ℕ
  pub should_keep_alive : Bool
  pub upgrade : Bool

-- A call of one of the members of `lhttp_parser_settings`, with the bytes from `at` on.
pub data Event : Type 0 where
  message_begin message_complete : Event
  url header_field header_value body : List ℕ → Event
  headers_complete : ParserInfo → Event

-- What a callback of Lua gets.
pub data Entry : Type 0 where
  string : String → Entry
  number : ℕ → Entry
  boolean : Bool → Entry

pub data Argument : Type 0 where
  no_argument : Argument
  bytes : List ℕ → Argument
  info : List (String × Entry) → Argument

abbrev pub Call : Type 0
Call = String × Argument

-- Which fields of the parser's environment are functions.
abbrev pub Callbacks : Type 0
Callbacks = String → Bool

abbrev pub call_field : Callbacks → String → Argument → List Call
call_field env name argument = if env name then (name, argument) ∷ [] else []

-- "method" for a request, "status_code" for a response.
abbrev pub first_line : ParserInfo → List (String × Entry)
first_line p = elim p.type [
  | http_request ↦ ("method", string (method_to_str p.method)) ∷ []
  | http_response ↦ ("status_code", number p.status_code) ∷ []
]

unfoldable pub lhttp_parser_on_headers_complete : Callbacks → ParserInfo → List Call
lhttp_parser_on_headers_complete env p = call_field env "onHeadersComplete" (
    info (
      first_line p
      ++ ("version_major", number p.http_major)
        ∷ ("version_minor", number p.http_minor)
        ∷ ("should_keep_alive", boolean p.should_keep_alive)
        ∷ ("upgrade", boolean p.upgrade)
        ∷ []))

-- The member of the settings for an event. All return 0, so that the parser goes on.
unfoldable pub on_event : Callbacks → Event → List Call
on_event env message_begin = call_field env "onMessageBegin" no_argument
on_event env message_complete = call_field env "onMessageComplete" no_argument
on_event env (url at) = call_field env "onUrl" (bytes at)
on_event env (header_field at) = call_field env "onHeaderField" (bytes at)
on_event env (header_value at) = call_field env "onHeaderValue" (bytes at)
on_event env (body at) = call_field env "onBody" (bytes at)
on_event env (headers_complete p) = lhttp_parser_on_headers_complete env p

unfoldable pub on_events : Callbacks → List Event → List Call
on_events env [] = []
on_events env (e ∷ es) = on_event env e ++ on_events env es

pub data UrlField : Type 0 where
  uf_schema uf_host uf_port uf_path uf_query uf_fragment : UrlField

-- `http_parser_url`: `field_set` by its bits.
pub record UrlParts : Type 0 where
  pub field_set : UrlField → Bool
  pub off : UrlField → ℕ
  pub len : UrlField → ℕ
  pub port : ℕ

-- The library's functions. `execute` gives the callbacks that it makes, the count of bytes parsed and
-- the parser behind them; `parse_url` gives `none` for an error.
pub record Library (Parser : Type 0) : Type 0 where
  pub init : ParserType → Parser
  pub execute : Parser → List ℕ → List Event × ℕ × Parser
  pub errno_description : Parser → String
  pub parse_url : List ℕ → Bool → Option UrlParts

pub data UrlEntry : Type 0 where
  url_text : List ℕ → UrlEntry
  url_number : ℕ → UrlEntry

-- A Lua error of `luaL_error` has a message.
pub data Finished (Parser : Type 0) : Type 0 where
  finished : List Call → Parser → Finished Parser
  lua_error : List Call → String → Finished Parser

module _ {Parser : Type 0} (lib : Library Parser) where
  -- What is done with the library's answer.
  abbrev pub executed : Callbacks → List Event × ℕ × Parser → List Call × ℕ × Parser
  executed env (events, nparsed, parser) = (on_events env events, nparsed, parser)

  -- `luaL_checkint` makes an `int`, and the assignment a `size_t` of it. The library may read every
  -- byte that it is given.
  unfoldable pub lhttp_parser_execute :
      Callbacks → Parser → MemSlice → ℤ → ℤ → M (List Call × ℕ × Parser)
  lhttp_parser_execute env parser ms offset len =
      if not (ltb (as_size offset) ms.until)
      then argerror 3
      else if not (leb (size_add (as_size offset) (as_size len)) ms.until)
      then argerror 4
      else (read ms.mb (ms.slice + as_size offset) (as_size len) >>= λ chunk.
          pure (executed env (lib.execute parser (tabulate (as_size len) chunk))))

  unfoldable pub lhttp_parser_finish : Callbacks → Parser → Finished Parser
  lhttp_parser_finish env parser =
      let (calls, rv, parser') = executed env (lib.execute parser []) in
      if rv == 0 then finished calls parser' else lua_error calls (lib.errno_description parser')

  -- A field's part of the url, for the table that `lhttp_parser_parse_url` returns.
  abbrev pub part : List ℕ → UrlParts → UrlField → List ℕ
  part s u f = take (u.len f) (drop (u.off f) s)

  abbrev pub has_part : List ℕ → UrlParts → UrlField → String → List (String × UrlEntry)
  has_part s u f name = if u.field_set f then (name, url_text (part s u f)) ∷ [] else []

  -- `none` is a Lua error.
  unfoldable pub lhttp_parser_parse_url : List ℕ → Bool → Option (List (String × UrlEntry))
  lhttp_parser_parse_url s is_connect = elim (lib.parse_url s is_connect) [
    | none ↦ none
    | some u ↦ some (
        has_part s u uf_schema "schema"
        ++ has_part s u uf_host "host"
        ++ has_part s u uf_port "port_string"
        ++ (if u.field_set uf_port then ("port", url_number u.port) ∷ [] else [])
        ++ has_part s u uf_path "path"
        ++ has_part s u uf_query "query"
        ++ has_part s u uf_fragment "fragment")
  ]

  -- The type argument of `lhttp_parser_new` and `lhttp_parser_reinitialize`; `none` is an error that
  -- names argument 1.
  unfoldable pub parser_init : String → Option Parser
  parser_init type =
      if str_eq type "request"
      then some (lib.init http_request)
      else if str_eq type "response"
      then some (lib.init http_response)
      else none
