-- ===== src/Examples/Names.antt =====
-- DNS: the theorem at a concrete answer.
use lev.Base.{ℕ, ◌≡◌, refl, some, List, [], ◌∷◌, true, Option}
use lev.Dns.{
  Family, inet, inet6, AddrInfo, lookup_values, nil, string, number, dns_resolve, resolve_mx,
  first_address,
}
use lev.Dns.Lookup.{Chosen, lookup_values-Chosen}

-- The bytes of an address as its text.
abbrev as_bytes : Family → List ℕ → Option (List ℕ)
as_bytes family addr = some addr

abbrev no_errors : ℕ → List ℕ
no_errors status = []

-- An address of IPv6, and one of IPv4 behind it.
abbrev both : List AddrInfo
both =
    record { ai_family = inet6; is_stream = true; ai_addr = 1 ∷ [] }
    ∷ record { ai_family = inet; is_stream = true; ai_addr = 2 ∷ [] }
    ∷ []

lookup_values-Chosen_example : Chosen as_bytes both (lookup_values no_errors as_bytes both)
lookup_values-Chosen_example = lookup_values-Chosen as_bytes no_errors both (refl, (refl, tt))

lookup_run : lookup_values no_errors as_bytes both ≡ some (nil ∷ string (2 ∷ []) ∷ number 4 ∷ [])
unfolding lookup_values first_address
lookup_run = refl

resolve_run : dns_resolve (some (b'M' ∷ b'X' ∷ [])) ≡ some resolve_mx
unfolding dns_resolve
resolve_run = refl
