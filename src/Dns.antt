-- ===== src/Dns.antt =====
-- DNS, src/lev_new_dns.c. What c-ares and libuv have found is what a callback is given; the text of an
-- address, `inet_ntop`, and the names of errors are parameters.
pub mod Lookup
use lev.Base.{
  ℕ, zero, suc, List, [], ◌∷◌, Option, none, some, Bool, true, false, not, if◌then◌else◌, map,
}
use lev.Handle.{LevRef, Registry, lev_handle_ref, lev_handle_unref, init_ref}
use lev.Fs.Modes.{same_text}

pub data Family : Type 0 where
  inet inet6 other_family : Family

-- `struct addrinfo`: the family, whether the type is SOCK_STREAM, and the address.
pub record AddrInfo : Type 0 where
  pub ai_family : Family
  pub is_stream : Bool
  pub ai_addr : List ℕ

-- An element of a list that a query gives.
pub data Answer : Type 0 where
  text : List ℕ → Answer
  mx : List ℕ → ℕ → Answer
  srv : List ℕ → ℕ → ℕ → ℕ → Answer

-- What is pushed for the callback of Lua.
pub data Value : Type 0 where
  nil : Value
  string : List ℕ → Value
  number : ℕ → Value
  table : List Answer → Value

-- What c-ares has parsed: a status other than ARES_SUCCESS, or the answer.
pub data Reply (A : Type 0) : Type 0 where
  failed : ℕ → Reply A
  parsed : A → Reply A

-- DNSR__SET_CB, in the main thread: the holder, at index 1, with its reference.
unfoldable pub set_cb : ℕ → Registry → LevRef × Registry
set_cb object r = lev_handle_ref (init_ref object none) object r

-- The callback of Lua is called with these values, and DNSR__DISPOSE follows; `none` is a failed
-- assertion.
unfoldable pub call_and_dispose : List Value → LevRef → Registry → Option (List Value × Registry)
call_and_dispose values holder r = elim (lev_handle_unref holder r) [
  | none ↦ none
  | some (h, r') ↦ some (values, r')
]

abbrev pub is_family : Family → Family → Bool
is_family inet inet = true
is_family inet inet6 = false
is_family inet other_family = false
is_family inet6 inet = false
is_family inet6 inet6 = true
is_family inet6 other_family = false
is_family other_family f = false

-- What a loop over the addresses comes to.
pub data Found : Type 0 where
  asserted absent : Found
  found : List ℕ → Found

module _ (errname : ℕ → List ℕ) (inet_ntop : Family → List ℕ → Option (List ℕ)) where
  -- `on_resolve4` and `on_resolve6`: the addresses as texts. A text that cannot be made leaves the buffer
  -- as it was.
  abbrev pub address_texts : Family → List ℕ → List (List ℕ) → List Answer
  address_texts family addr_buf [] = []
  address_texts family addr_buf (p ∷ ps) = elim (inet_ntop family p) [
    | none ↦ text addr_buf ∷ address_texts family addr_buf ps
    | some t ↦ text t ∷ address_texts family t ps
  ]

  unfoldable pub on_resolve4 :
      ℕ → Family → List (List ℕ) → List ℕ → LevRef → Registry → Option (List Value × Registry)
  on_resolve4 zero h_addrtype h_addr_list addr_buf holder r =
      call_and_dispose (nil ∷ table (address_texts h_addrtype addr_buf h_addr_list) ∷ []) holder r
  on_resolve4 (suc status) h_addrtype h_addr_list addr_buf holder r =
      call_and_dispose (string (errname (suc status)) ∷ []) holder r

  unfoldable pub on_resolve6 :
      ℕ → Family → List (List ℕ) → List ℕ → LevRef → Registry → Option (List Value × Registry)
  on_resolve6 zero h_addrtype h_addr_list addr_buf holder r =
      call_and_dispose (nil ∷ table (address_texts h_addrtype addr_buf h_addr_list) ∷ []) holder r
  on_resolve6 (suc status) h_addrtype h_addr_list addr_buf holder r =
      call_and_dispose (string (errname (suc status)) ∷ []) holder r

  -- A query that failed, one whose reply could not be parsed, and one with a table.
  unfoldable pub on_query :
      {A : Type 0}
      → (A → List Answer)
      → ℕ
      → Reply A
      → LevRef
      → Registry
      → Option (List Value × Registry)
  on_query push (suc status) reply holder r =
      call_and_dispose (string (errname (suc status)) ∷ []) holder r
  on_query push zero (failed status) holder r =
      call_and_dispose (string (errname status) ∷ []) holder r
  on_query push zero (parsed answer) holder r =
      call_and_dispose (nil ∷ table (push answer) ∷ []) holder r

  unfoldable pub on_resolve_mx :
      ℕ → Reply (List (List ℕ × ℕ)) → LevRef → Registry → Option (List Value × Registry)
  on_resolve_mx status reply holder r =
      on_query (map λ (host, priority). mx host priority) status reply holder r

  unfoldable pub on_resolve_txt :
      ℕ → Reply (List (List ℕ)) → LevRef → Registry → Option (List Value × Registry)
  on_resolve_txt status reply holder r = on_query (map text) status reply holder r

  unfoldable pub on_resolve_srv :
      ℕ → Reply (List (List ℕ × ℕ × ℕ × ℕ)) → LevRef → Registry → Option (List Value × Registry)
  on_resolve_srv status reply holder r =
      on_query (map λ (host, port, priority, weight). srv host port priority weight) status reply
        holder r

  abbrev pub push_host_aliases : List (List ℕ) → List Answer
  push_host_aliases h_aliases = map text h_aliases

  unfoldable pub on_resolve_ns :
      ℕ → Reply (List (List ℕ)) → LevRef → Registry → Option (List Value × Registry)
  on_resolve_ns status reply holder r = on_query push_host_aliases status reply holder r

  unfoldable pub on_resolve_cname :
      ℕ → Reply (List ℕ) → LevRef → Registry → Option (List Value × Registry)
  on_resolve_cname status reply holder r =
      on_query (λ h_name. text h_name ∷ []) status reply holder r

  unfoldable pub on_reverse : ℕ → List (List ℕ) → LevRef → Registry → Option (List Value × Registry)
  on_reverse status h_aliases holder r =
      on_query push_host_aliases status (parsed h_aliases) holder r

  -- The address in the list of the first of a family that has a text.
  unfoldable pub first_address : Family → List AddrInfo → Found
  first_address family [] = absent
  first_address family (a ∷ more) =
      let rest = first_address family more in
      if not a.is_stream
      then asserted
      else if not (is_family family a.ai_family)
      then rest
      else (elim (inet_ntop a.ai_family a.ai_addr) [ none ↦ rest | some t ↦ found t ])

  -- The addresses of IPv4 first, and those of IPv6 when there is none; `none` is a failed assertion.
  unfoldable pub lookup_values : List AddrInfo → Option (List Value)
  lookup_values res = elim (first_address inet res) [
    | asserted ↦ none
    | found t ↦ some (nil ∷ string t ∷ number 4 ∷ [])
    | absent ↦ elim (first_address inet6 res) [
      | asserted ↦ none
      | found t ↦ some (nil ∷ string t ∷ number 6 ∷ [])
      | absent ↦ none
    ]
  ]

  unfoldable pub on_lookup_family :
      ℕ → List AddrInfo → LevRef → Registry → Option (List Value × Registry)
  on_lookup_family (suc status) res holder r =
      call_and_dispose (string (errname (suc status)) ∷ []) holder r
  on_lookup_family zero res holder r = elim (lookup_values res) [
    | none ↦ none
    | some values ↦ call_and_dispose values holder r
  ]

-- The function that `dns_resolve` calls.
pub data Query : Type 0 where
  resolve4 resolve6 resolve_mx resolve_txt resolve_srv reverse resolve_ns resolve_cname : Query

-- `none` is the error "invalid rrtype".
unfoldable pub dns_resolve : Option (List ℕ) → Option Query
dns_resolve none = some resolve4
dns_resolve (some rrtype) =
    if same_text rrtype (b'A' ∷ [])
    then some resolve4
    else if same_text rrtype (b'A' ∷ b'A' ∷ b'A' ∷ b'A' ∷ [])
    then some resolve6
    else if same_text rrtype (b'M' ∷ b'X' ∷ [])
    then some resolve_mx
    else if same_text rrtype (b'T' ∷ b'X' ∷ b'T' ∷ [])
    then some resolve_txt
    else if same_text rrtype (b'S' ∷ b'R' ∷ b'V' ∷ [])
    then some resolve_srv
    else if same_text rrtype (b'P' ∷ b'T' ∷ b'R' ∷ [])
    then some reverse
    else if same_text rrtype (b'N' ∷ b'S' ∷ [])
    then some resolve_ns
    else if same_text rrtype (b'C' ∷ b'N' ∷ b'A' ∷ b'M' ∷ b'E' ∷ [])
    then some resolve_cname
    else none
