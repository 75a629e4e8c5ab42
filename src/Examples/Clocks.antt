-- ===== src/Examples/Clocks.antt =====
-- The cache of times at a concrete clock.
use lev.Base.{ℕ, [], ◌∷◌, false, refl, arith}
use lev.Base.Int.{pos}
use lev.TimeCache.{Clock, zeroed, cache_time_init, cache_time_update, fill_slot, updates}
use lev.TimeCache.Format.{Tm}
use lev.TimeCache.Ring.{SameStrings, IsCurrent, new_seconds, updates-SameStrings}
use lev.TimeCache.Sizes.{IsTm, Fits, update-Fits}

-- 28 September 1970, a Monday, 06:00.
abbrev morning : Tm
morning = record {
  tm_sec = 0;
  tm_min = 0;
  tm_hour = 6;
  tm_mday = 28;
  tm_mon = 8;
  tm_year = 70;
  tm_wday = 1;
  tm_isdst = false;
}

abbrev clock : ℕ → Clock
clock sec = record {
  tv_sec = sec;
  tv_usec = 5000;
  gmt = morning;
  local = morning;
  timezone = pos 0;
}

morning-IsTm : IsTm morning
morning-IsTm = omega arith

started-IsCurrent : IsCurrent (cache_time_init (clock 100))
unfolding cache_time_init cache_time_update fill_slot
started-IsCurrent = (omega arith, refl, refl, refl)

updates-SameStrings_example :
    SameStrings
      (cache_time_init (clock 100)).slot
      (cache_time_init (clock 100))
      (updates (clock 100 ∷ clock 101 ∷ clock 102 ∷ []) (cache_time_init (clock 100)))
    × IsCurrent (updates (clock 100 ∷ clock 101 ∷ clock 102 ∷ []) (cache_time_init (clock 100)))
unfolding cache_time_init cache_time_update fill_slot new_seconds
updates-SameStrings_example =
    updates-SameStrings (clock 100 ∷ clock 101 ∷ clock 102 ∷ []) (cache_time_init (clock 100))
      started-IsCurrent (omega arith)

update-Fits_example : Fits (cache_time_update (clock 100) zeroed)
update-Fits_example =
    update-Fits (clock 100) zeroed morning-IsTm morning-IsTm (omega arith) (λ i. omega arith)
