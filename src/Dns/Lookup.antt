-- ===== src/Dns/Lookup.antt =====
-- Which address a lookup gives.
use lev.Base.{
  ℕ, ◌≡◌, refl, List, [], ◌∷◌, Option, none, some, true, if◌then◌else◌, Bool-cases, inl, inr, ◌⊎◌,
}
use lev.Dns.{
  Family, inet, inet6, AddrInfo, Found, asserted, absent, found, is_family, first_address,
  lookup_values, Value, nil, string, number,
}

module _ (inet_ntop : Family → List ℕ → Option (List ℕ)) where
  -- An address of the family that has a text.
  abbrev pub text_of : Family → AddrInfo → Option (List ℕ)
  text_of family a = if is_family family a.ai_family then inet_ntop a.ai_family a.ai_addr else none

  abbrev pub HasNone : Family → List AddrInfo → Type 0
  HasNone family [] = Unit
  HasNone family (a ∷ more) = (text_of family a ≡ none) × HasNone family more

  abbrev pub AreStreams : List AddrInfo → Type 0
  AreStreams [] = Unit
  AreStreams (a ∷ more) = (a.is_stream ≡ true) × AreStreams more

  -- The text of the first such address, with none before it.
  abbrev pub IsFirst : Family → List AddrInfo → List ℕ → Type 0
  IsFirst family [] t = ⊥
  IsFirst family (a ∷ more) t =
      (text_of family a ≡ some t) ⊎ ((text_of family a ≡ none) × IsFirst family more t)

  abbrev Finds : Family → List AddrInfo → Found → Type 0
  Finds family res asserted = ⊥
  Finds family res absent = HasNone family res
  Finds family res (found t) = IsFirst family res t

  later-Finds :
      (family : Family) (a : AddrInfo) (more : List AddrInfo) (o : Found)
      → text_of family a ≡ none
      → Finds family more o
      → Finds family (a ∷ more) o
  later-Finds family a more asserted e h = h
  later-Finds family a more absent e h = (e, h)
  later-Finds family a more (found t) e h = inr (e, h)

  now-Finds :
      (family : Family) (a : AddrInfo) (more : List AddrInfo) (o : Found) (r : Option (List ℕ))
      → text_of family a ≡ r
      → Finds family more o
      → Finds family (a ∷ more) (elim r [ none ↦ o | some t ↦ found t ])
  now-Finds family a more o none e h = later-Finds family a more o e h
  now-Finds family a more o (some t) e h = inl e

  first_address-Finds :
      (errname : ℕ → List ℕ) (family : Family) (res : List AddrInfo)
      → AreStreams res
      → Finds family res (first_address errname inet_ntop family res)
  unfolding first_address
  first_address-Finds errname family [] s = tt
  first_address-Finds errname family (a ∷ more) (s, ss) =
      let rest = first_address-Finds errname family more ss in
      elim (Bool-cases (is_family family a.ai_family)) [
        | inl e ↦
            let r : text_of family a ≡ inet_ntop a.ai_family a.ai_addr = rw e refl in
            rw (s, e) (now-Finds family a more _ (inet_ntop a.ai_family a.ai_addr) r rest)
        | inr e ↦
            let r : text_of family a ≡ none = rw e refl in
            rw (s, e) (later-Finds family a more _ r rest)
      ]

  -- What a lookup gives.
  abbrev pub Chosen : List AddrInfo → Option (List Value) → Type 0
  Chosen res none = HasNone inet res × HasNone inet6 res
  Chosen res (some values) =
      (t : List ℕ) × (((values ≡ nil ∷ string t ∷ number 4 ∷ []) × IsFirst inet res t)
        ⊎ ((values ≡ nil ∷ string t ∷ number 6 ∷ []) × HasNone inet res × IsFirst inet6 res t))

  Chosen-of :
      (res : List AddrInfo) (four six : Found)
      → Finds inet res four
      → Finds inet6 res six
      → Chosen res (elim four [
        | asserted ↦ none
        | found t ↦ some (nil ∷ string t ∷ number 4 ∷ [])
        | absent ↦ elim six [
          | asserted ↦ none
          | found t ↦ some (nil ∷ string t ∷ number 6 ∷ [])
          | absent ↦ none
        ]
      ])
  Chosen-of res asserted six h k = absurd h
  Chosen-of res (found t) six h k = (t, inl (refl, h))
  Chosen-of res absent asserted h k = absurd k
  Chosen-of res absent (found t) h k = (t, inr (refl, h, k))
  Chosen-of res absent absent h k = (h, k)

  -- For addresses of stream sockets, whatever texts `inet_ntop` gives: a lookup gives the text of the
  -- first address of IPv4 that has one, marked with 4; if there is none, that of the first of IPv6,
  -- marked with 6; and it fails an assertion exactly when there is neither.
  pub lookup_values-Chosen :
      (errname : ℕ → List ℕ) (res : List AddrInfo)
      → AreStreams res
      → Chosen res (lookup_values errname inet_ntop res)
  unfolding lookup_values
  lookup_values-Chosen errname res s =
      Chosen-of res (first_address errname inet_ntop inet res)
        (first_address errname inet_ntop inet6 res) (first_address-Finds errname inet res s)
        (first_address-Finds errname inet6 res s)
