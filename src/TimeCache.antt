-- ===== src/TimeCache.antt =====
-- The cache of formatted times, src/time_cache.c: a ring of slots, and pointers to the last ones.
pub mod Format
pub mod Ring
pub mod Sizes
use lev.Base.{
  ℕ, List, Option, Bool, some, none, [], ◌∷◌, suc, ◌+◌, ◌-◌, ◌*◌, ◌/◌, ◌%◌, ◌^◌, ◌==◌,
  if◌then◌else◌,
}
use lev.Base.Int.{ℤ, pos}
use lev.TimeCache.Format.{Tm, http_string, err_log_string, http_log_string, get_timezone}

abbrev pub time_slots : ℕ
time_slots = 64

-- What the C library says in an update: `gettimeofday`, `gmtime` and `localtime` of `time(NULL)`, and
-- `timezone`.
pub record Clock : Type 0 where
  pub tv_sec : ℕ
  pub tv_usec : ℕ
  pub gmt : Tm
  pub local : Tm
  pub timezone : ℤ

pub record CacheTime : Type 0 where
  pub sec : ℕ
  pub msec : ℕ
  pub gmtoff : ℤ

-- The variables of the file; a pointer is the number of its slot, and `none` is NULL.
pub record TimeCache : Type 0 where
  pub slot : ℕ
  pub current_msec : ℕ
  pub cached_time : ℕ → CacheTime
  pub cached_err_log_time : ℕ → List ℕ
  pub cached_http_time : ℕ → List ℕ
  pub cached_http_log_time : ℕ → List ℕ
  pub last_time : Option ℕ
  pub err_log_time : Option ℕ
  pub http_time : Option ℕ
  pub http_log_time : Option ℕ

abbrev pub set {ℓ} : {A : Type ℓ} → ℕ → A → (ℕ → A) → ℕ → A
set i a f j = if i == j then a else f j

-- The next slot gets the time of a new second.
unfoldable pub fill_slot : Clock → ℕ → TimeCache → TimeCache
fill_slot k next c =
    let gmtoff = get_timezone k.timezone k.local.tm_isdst in
    record c {
      slot = next;
      cached_time =
          set next (record { sec = k.tv_sec; msec = k.tv_usec / 1000; gmtoff = gmtoff })
            c.cached_time;
      cached_http_time = set next (http_string k.gmt) c.cached_http_time;
      cached_err_log_time = set next (err_log_string k.local) c.cached_err_log_time;
      cached_http_log_time = set next (http_log_string k.local gmtoff) c.cached_http_log_time;
      last_time = some next;
      err_log_time = some next;
      http_time = some next;
      http_log_time = some next;
    }

-- Whether an update only sets the milliseconds.
abbrev pub same_second : Clock → TimeCache → Bool
same_second k c = (c.cached_time c.slot).sec == k.tv_sec

unfoldable pub cache_time_update : Clock → TimeCache → TimeCache
cache_time_update k c =
    let msec = k.tv_usec / 1000 in
    let c₁ : TimeCache = record c { current_msec = (k.tv_sec * 1000 + msec) % 2 ^ 64 } in
    if same_second k c
    then record c₁ {
      cached_time = set c.slot (record (c.cached_time c.slot) { msec = msec }) c.cached_time;
    }
    else fill_slot k (if c.slot == time_slots - 1 then 0 else suc c.slot) c₁

-- Static variables start as zeros.
abbrev pub zeroed : TimeCache
zeroed = record {
  slot = 0;
  current_msec = 0;
  cached_time = λ i. record { sec = 0; msec = 0; gmtoff = pos 0 };
  cached_err_log_time = λ i. [];
  cached_http_time = λ i. [];
  cached_http_log_time = λ i. [];
  last_time = none;
  err_log_time = none;
  http_time = none;
  http_log_time = none;
}

unfoldable pub cache_time_init : Clock → TimeCache
cache_time_init k = cache_time_update k (record zeroed { last_time = some 0 })

-- Updates, one after the other.
unfoldable pub updates : List Clock → TimeCache → TimeCache
updates [] c = c
updates (k ∷ ks) c = updates ks (cache_time_update k c)
