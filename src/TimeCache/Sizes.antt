-- ===== src/TimeCache/Sizes.antt =====
-- The sizes of the strings of a slot.
use lev.Base.Int.{ℤ}
use lev.Base.{
  ℕ, List, ◌≡◌, ◌<◌, ◌≤◌, ◌+◌, arith, length, refl, ==_iff, length-append, all_below_sound, ◌∷◌,
  Bool, [], ◌++◌, ◌==◌, ◌/◌, ◌%◌,
}
use lev.TimeCache.{TimeCache, cache_time_update, fill_slot, Clock}
use lev.TimeCache.Format.{
  digits, decimal, two, four, Tm, clock_time, name_at, months, week, err_log_string, get_timezone,
  http_log_string, http_string, magnitude, sign,
}

length-two : (n : ℕ) → n < 100 → length (two n) ≡ 2
unfolding digits
length-two n h = ground arith

length-four : (n : ℕ) → n < 10000 → length (four n) ≡ 4
unfolding digits
length-four n h = ground arith

length-decimal_year : (n : ℕ) → 1000 ≤ n → n < 10000 → length (decimal n) ≡ 4
unfolding digits
length-decimal_year n l h = ground arith

-- The ranges of `struct tm`, for a year before 10000.
abbrev pub IsTm : Tm → Type 0
IsTm t =
    (t.tm_sec ≤ 60)
    × (t.tm_min < 60)
    × (t.tm_hour < 24)
    × (t.tm_mday ≤ 31)
    × (t.tm_mon < 12)
    × (t.tm_year + 1900 < 10000)
    × (t.tm_wday < 7)

length-clock_time : (t : Tm) → IsTm t → length (clock_time t) ≡ 8
length-clock_time t (sec, min, hour, mday, mon, year, wday) = omega (
  arith,
  length-append (two t.tm_hour) (b':' ∷ (two t.tm_min ++ b':' ∷ two t.tm_sec)),
  length-append (two t.tm_min) (b':' ∷ two t.tm_sec),
  length-two t.tm_hour (omega arith),
  length-two t.tm_min (omega arith),
  length-two t.tm_sec (omega arith),
)

length-week : (i : ℕ) → i < 7 → length (name_at week i) ≡ 3
length-week i h = (==_iff _ _).0 (all_below_sound 7 (λ i. length (name_at week i) == 3) i refl h)

length-months : (i : ℕ) → i < 12 → length (name_at months i) ≡ 3
length-months i h =
    (==_iff _ _).0 (all_below_sound 12 (λ i. length (name_at months i) == 3) i refl h)

length-http_string : (t : Tm) → IsTm t → length (http_string t) ≡ 29
unfolding http_string
length-http_string t (sec, min, hour, mday, mon, year, wday) =
    let gmt : List ℕ = 32 ∷ b'G' ∷ b'M' ∷ b'T' ∷ [] in
    let y = four (t.tm_year + 1900) in
    let m = name_at months t.tm_mon in
    omega (
      arith,
      length-append (name_at week t.tm_wday)
          (b',' ∷ 32 ∷ (two t.tm_mday ++ 32 ∷ (m ++ 32 ∷ (y ++ 32 ∷ (clock_time t ++ gmt))))),
      length-append (two t.tm_mday) (32 ∷ (m ++ 32 ∷ (y ++ 32 ∷ (clock_time t ++ gmt)))),
      length-append m (32 ∷ (y ++ 32 ∷ (clock_time t ++ gmt))),
      length-append y (32 ∷ (clock_time t ++ gmt)),
      length-append (clock_time t) gmt,
      length-week t.tm_wday wday,
      length-two t.tm_mday (omega arith),
      length-months t.tm_mon mon,
      length-four (t.tm_year + 1900) year,
      length-clock_time t (sec, min, hour, mday, mon, year, wday),
    )

length-err_log_string : (t : Tm) → IsTm t → length (err_log_string t) ≡ 19
unfolding err_log_string
length-err_log_string t (sec, min, hour, mday, mon, year, wday) =
    let y = four (t.tm_year + 1900) in
    omega (
      arith,
      length-append y (b'/' ∷ (two (t.tm_mon + 1) ++ b'/' ∷ (two t.tm_mday ++ 32 ∷ clock_time t))),
      length-append (two (t.tm_mon + 1)) (b'/' ∷ (two t.tm_mday ++ 32 ∷ clock_time t)),
      length-append (two t.tm_mday) (32 ∷ clock_time t),
      length-four (t.tm_year + 1900) year,
      length-two (t.tm_mon + 1) (omega arith),
      length-two t.tm_mday (omega arith),
      length-clock_time t (sec, min, hour, mday, mon, year, wday),
    )

length-http_log_string :
    (t : Tm) (z : ℤ) → IsTm t → magnitude z < 6000 → length (http_log_string t z) ≡ 26
unfolding http_log_string
length-http_log_string t z (sec, min, hour, mday, mon, year, wday) small =
    let y = decimal (t.tm_year + 1900) in
    let m = name_at months t.tm_mon in
    let off = two (magnitude z / 60) ++ two (magnitude z % 60) in
    omega (
      arith,
      length-append (two t.tm_mday)
          (b'/' ∷ (m ++ b'/' ∷ (y ++ b':' ∷ (clock_time t ++ 32 ∷ sign z ∷ off)))),
      length-append m (b'/' ∷ (y ++ b':' ∷ (clock_time t ++ 32 ∷ sign z ∷ off))),
      length-append y (b':' ∷ (clock_time t ++ 32 ∷ sign z ∷ off)),
      length-append (clock_time t) (32 ∷ sign z ∷ off),
      length-append (two (magnitude z / 60)) (two (magnitude z % 60)),
      length-two t.tm_mday (omega arith),
      length-months t.tm_mon mon,
      length-decimal_year (t.tm_year + 1900) (omega arith) year,
      length-clock_time t (sec, min, hour, mday, mon, year, wday),
      length-two (magnitude z / 60) (omega arith),
      length-two (magnitude z % 60) (omega arith),
    )

timezone_small :
    (z : ℤ) (isdst : Bool) → magnitude z ≤ 86400 → magnitude (get_timezone z isdst) < 6000
unfolding get_timezone
timezone_small z isdst h = ground arith

-- Each string and its NUL fit in the array of their slot.
abbrev pub Fits : TimeCache → Type 0
Fits c =
    (i : ℕ)
    → (length (c.cached_http_time i) < 30)
      × (length (c.cached_err_log_time i) < 20)
      × (length (c.cached_http_log_time i) < 27)

-- An update at a time whose parts are in the ranges of `struct tm`, before the year 10000 and at most a
-- day from UTC, keeps every string, with its NUL, inside the array of its slot.
pub update-Fits :
    (k : Clock) (c : TimeCache)
    → IsTm k.gmt
    → IsTm k.local
    → magnitude k.timezone ≤ 86400
    → Fits c
    → Fits (cache_time_update k c)
unfolding cache_time_update fill_slot
update-Fits k c g l z f i =
    let zone = timezone_small k.timezone k.local.tm_isdst z in
    ground (
      arith,
      f i,
      length-http_string k.gmt g,
      length-err_log_string k.local l,
      length-http_log_string k.local (get_timezone k.timezone k.local.tm_isdst) l zone,
    )
