-- ===== src/TimeCache/Ring.antt =====
-- The slots that updates leave alone.
use mathlib.Core.Path.{subst}
use lev.Base.{
  ℕ, List, true, false, [], ◌∷◌, ◌⊎◌, inl, inr, Bool-cases, ◌≡◌, ◌+◌, ◌<◌, refl, arith, suc,
  if◌then◌else◌, ◌∙◌, some, sym,
}
use lev.TimeCache.{Clock, TimeCache, cache_time_update, updates, same_second, time_slots, fill_slot}

-- How many updates find a new second.
unfoldable pub new_seconds : List Clock → TimeCache → ℕ
new_seconds [] c = 0
new_seconds (k ∷ ks) c =
    let more = new_seconds ks (cache_time_update k c) in if same_second k c then more else suc more

-- The slot that is d steps behind s.
abbrev Behind : ℕ → ℕ → ℕ → Type 0
Behind d s slot = (slot ≡ s + d) ⊎ (slot + time_slots ≡ s + d)

-- The three strings of a slot are the same.
abbrev pub SameStrings : ℕ → TimeCache → TimeCache → Type 0
SameStrings s c c' =
    (c'.cached_http_time s ≡ c.cached_http_time s)
    × (c'.cached_err_log_time s ≡ c.cached_err_log_time s)
    × (c'.cached_http_log_time s ≡ c.cached_http_log_time s)

update_lem :
    (k : Clock) (c : TimeCache) (d s : ℕ)
    → s < time_slots
    → c.slot < time_slots
    → Behind d s c.slot
    → d + 1 < time_slots
    → same_second k c ≡ false
    → SameStrings s c (cache_time_update k c)
      × ((cache_time_update k c).slot < time_slots)
      × Behind (suc d) s (cache_time_update k c).slot
unfolding cache_time_update fill_slot
update_lem k c d s l m b r e = ground arith

same_lem :
    (k : Clock) (c : TimeCache) (s : ℕ)
    → same_second k c ≡ true
    → SameStrings s c (cache_time_update k c) × ((cache_time_update k c).slot ≡ c.slot)
unfolding cache_time_update
same_lem k c s e = ground arith

-- The pointers are to the strings of the current slot.
abbrev pub IsCurrent : TimeCache → Type 0
IsCurrent c =
    (c.slot < time_slots)
    × (c.http_time ≡ some c.slot)
    × (c.err_log_time ≡ some c.slot)
    × (c.http_log_time ≡ some c.slot)

update-IsCurrent : (k : Clock) (c : TimeCache) → IsCurrent c → IsCurrent (cache_time_update k c)
unfolding cache_time_update fill_slot
update-IsCurrent k c h = elim (Bool-cases (same_second k c)) [
  | inl e ↦ rw e h
  | inr e ↦ rw e (ground (arith, h), refl, refl, refl)
]

SameStrings-on :
    (s : ℕ) (a b c : TimeCache) → SameStrings s a b → SameStrings s b c → SameStrings s a c
SameStrings-on s a b c (h, e, l) (h', e', l') = (h' ∙ h, e' ∙ e, l' ∙ l)

updates_lem :
    (ks : List Clock) (c : TimeCache) (d s : ℕ)
    → s < time_slots
    → IsCurrent c
    → Behind d s c.slot
    → d + new_seconds ks c < time_slots
    → SameStrings s c (updates ks c) × IsCurrent (updates ks c)
unfolding updates new_seconds
updates_lem [] c d s l m b r = ((refl, refl, refl), m)
updates_lem (k ∷ ks) c d s l m b r = elim (Bool-cases (same_second k c)) [
  | inl e ↦
      let (same, at) = same_lem k c s e in
      let (more, m') =
        updates_lem ks (cache_time_update k c) d s l (update-IsCurrent k c m)
          (subst (Behind d s) (sym at) b) (ground arith) in
      (
        SameStrings-on s c (cache_time_update k c) (updates ks (cache_time_update k c)) same more,
        m',
      )
  | inr e ↦
      let (same, lt, b') = update_lem k c d s l m.0 b (ground arith) e in
      let (more, m') =
        updates_lem ks (cache_time_update k c) (suc d) s l (update-IsCurrent k c m) b'
          (ground arith) in
      (
        SameStrings-on s c (cache_time_update k c) (updates ks (cache_time_update k c)) same more,
        m',
      )
]

-- From a cache whose pointers are to its current slot, updates that find at most 63 new seconds leave
-- the three strings of that slot as they are, and the pointers are to the then current slot again.
pub updates-SameStrings :
    (ks : List Clock) (c : TimeCache)
    → IsCurrent c
    → new_seconds ks c < time_slots
    → SameStrings c.slot c (updates ks c) × IsCurrent (updates ks c)
updates-SameStrings ks c m r =
    updates_lem ks c 0 c.slot m.0 m (inl (omega arith)) (omega (arith, r))
