-- ===== src/Time.antt =====
-- Go's time.Time and time.Duration. An instant is the number of nanoseconds since the earliest
-- instant that a time.Time holds, and a duration is a signed number of nanoseconds.
use shai.Prelude.{ℕ, ◌+◌, ◌-◌, Bool, ℤ, pos, negsuc, suc, ◌==◌, leb, if◌then◌else◌, ◌≤◌, arith}

abbrev pub Time : Type 0
Time = ℕ

abbrev pub Duration : Type 0
Duration = ℤ

-- The zero time.Time (1 January of the year 1): 2^63 seconds after the earliest instant.
unfoldable pub zero_time : Time
zero_time = 9223372036854775808000000000

unfoldable pub is_zero : Time → Bool
unfolding zero_time
is_zero t = t == zero_time

-- math.MaxInt64
abbrev pub max_duration : ℕ
max_duration = 9223372036854775807

-- t.Sub(u) where u is not after t: the difference, and the largest duration if that is too large.
unfoldable pub elapsed : Time → Time → ℕ
elapsed t u = if leb (t - u) max_duration then t - u else max_duration

-- t.Add(-d)
unfoldable pub back : Time → Duration → Time
back t (pos d) = t - d
back t (negsuc d) = t + suc d

pub back_mono : (t u : Time) (d : Duration) → t ≤ u → back t d ≤ back u d
unfolding back
back_mono t u d h = ground arith
