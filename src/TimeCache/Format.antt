-- ===== src/TimeCache/Format.antt =====
-- The strings that `cache_time_update` prints, src/time_cache.c.
use lev.Base.{ℕ, List, Bool, [], ◌∷◌, ◌++◌, zero, suc, ◌+◌, ◌-◌, ◌/◌, ◌%◌, ◌==◌, ltb, if◌then◌else◌}
use lev.Base.Int.{ℤ, pos, negsuc}

-- `struct tm`: `tm_year` counts from 1900, `tm_mon` and `tm_wday` from 0.
pub record Tm : Type 0 where
  pub tm_sec : ℕ
  pub tm_min : ℕ
  pub tm_hour : ℕ
  pub tm_mday : ℕ
  pub tm_mon : ℕ
  pub tm_year : ℕ
  pub tm_wday : ℕ
  pub tm_isdst : Bool

-- An element of an array of strings; an index that `struct tm` cannot hold has none.
abbrev pub name_at : List (List ℕ) → ℕ → List ℕ
name_at [] i = []
name_at (name ∷ names) zero = name
name_at (name ∷ names) (suc i) = name_at names i

abbrev pub week : List (List ℕ)
week =
    (b'S' ∷ b'u' ∷ b'n' ∷ [])
    ∷ (b'M' ∷ b'o' ∷ b'n' ∷ [])
    ∷ (b'T' ∷ b'u' ∷ b'e' ∷ [])
    ∷ (b'W' ∷ b'e' ∷ b'd' ∷ [])
    ∷ (b'T' ∷ b'h' ∷ b'u' ∷ [])
    ∷ (b'F' ∷ b'r' ∷ b'i' ∷ [])
    ∷ (b'S' ∷ b'a' ∷ b't' ∷ [])
    ∷ []

abbrev pub months : List (List ℕ)
months =
    (b'J' ∷ b'a' ∷ b'n' ∷ [])
    ∷ (b'F' ∷ b'e' ∷ b'b' ∷ [])
    ∷ (b'M' ∷ b'a' ∷ b'r' ∷ [])
    ∷ (b'A' ∷ b'p' ∷ b'r' ∷ [])
    ∷ (b'M' ∷ b'a' ∷ b'y' ∷ [])
    ∷ (b'J' ∷ b'u' ∷ b'n' ∷ [])
    ∷ (b'J' ∷ b'u' ∷ b'l' ∷ [])
    ∷ (b'A' ∷ b'u' ∷ b'g' ∷ [])
    ∷ (b'S' ∷ b'e' ∷ b'p' ∷ [])
    ∷ (b'O' ∷ b'c' ∷ b't' ∷ [])
    ∷ (b'N' ∷ b'o' ∷ b'v' ∷ [])
    ∷ (b'D' ∷ b'e' ∷ b'c' ∷ [])
    ∷ []

-- "%d" of a number of at most `fuel` + 1 digits.
unfoldable pub digits : ℕ → ℕ → List ℕ
digits zero n = (48 + n) ∷ []
digits (suc fuel) n =
    let front = digits fuel (n / 10) in
    if ltb n 10 then (48 + n) ∷ [] else front ++ (48 + n % 10) ∷ []

-- An `int` has at most 10 digits.
abbrev pub decimal : ℕ → List ℕ
decimal n = digits 9 n

-- "%02d" and "%4d".
abbrev pub two : ℕ → List ℕ
two n = if ltb n 10 then 48 ∷ (48 + n) ∷ [] else decimal n

abbrev pub four : ℕ → List ℕ
four n =
    if ltb n 10
    then 32 ∷ 32 ∷ 32 ∷ decimal n
    else if ltb n 100
    then 32 ∷ 32 ∷ decimal n
    else if ltb n 1000
    then 32 ∷ decimal n
    else decimal n

-- "%02d:%02d:%02d".
abbrev pub clock_time : Tm → List ℕ
clock_time t = two t.tm_hour ++ b':' ∷ (two t.tm_min ++ b':' ∷ two t.tm_sec)

-- "%s, %02d %s %4d %02d:%02d:%02d GMT".
unfoldable pub http_string : Tm → List ℕ
http_string gmt =
    name_at week gmt.tm_wday
    ++ b','
      ∷ 32
      ∷ (two gmt.tm_mday
          ++ 32
            ∷ (name_at months gmt.tm_mon
                ++ 32
                  ∷ (four (gmt.tm_year + 1900)
                      ++ 32 ∷ (clock_time gmt ++ 32 ∷ b'G' ∷ b'M' ∷ b'T' ∷ []))))

-- "%4d/%02d/%02d %02d:%02d:%02d".
unfoldable pub err_log_string : Tm → List ℕ
err_log_string p =
    four (p.tm_year + 1900)
    ++ b'/' ∷ (two (p.tm_mon + 1) ++ b'/' ∷ (two p.tm_mday ++ 32 ∷ clock_time p))

abbrev pub add_hour : ℤ → ℤ
add_hour (pos n) = pos (n + 3600)
add_hour (negsuc n) = if ltb n 3600 then pos (3600 - suc n) else negsuc (n - 3600)

-- `- (int)seconds / 60`, which rounds towards 0.
abbrev pub minus_minutes : ℤ → ℤ
minus_minutes (pos n) = if n / 60 == 0 then pos 0 else negsuc (n / 60 - 1)
minus_minutes (negsuc n) = pos (suc n / 60)

-- The macro `get_timezone`.
unfoldable pub get_timezone : ℤ → Bool → ℤ
get_timezone timezone isdst = minus_minutes (if isdst then add_hour timezone else timezone)

abbrev pub magnitude : ℤ → ℕ
magnitude (pos n) = n
magnitude (negsuc n) = suc n

abbrev pub sign : ℤ → ℕ
sign (pos n) = b'+'
sign (negsuc n) = b'-'

-- "%02d/%s/%d:%02d:%02d:%02d %c%02d%02d".
unfoldable pub http_log_string : Tm → ℤ → List ℕ
http_log_string p gmtoff =
    two p.tm_mday
    ++ b'/'
      ∷ (name_at months p.tm_mon
          ++ b'/'
            ∷ (decimal (p.tm_year + 1900)
                ++ b':'
                  ∷ (clock_time p
                      ++ 32
                        ∷ sign gmtoff
                        ∷ (two (magnitude gmtoff / 60) ++ two (magnitude gmtoff % 60)))))
