-- ===== src/Time.antt =====
-- Go's `time`, as far as the worker uses it: instants and durations in nanoseconds, and their text.
use raider_worker.Base.{Option, Text, false, is_empty, negsuc, some, ℕ, ℤ, ◌≡◌}

-- An instant as the nanoseconds from the Unix epoch; its location and clock reading are left out.
abbrev pub Time : Type 0
Time = ℤ

abbrev pub Duration : Type 0
Duration = ℤ

-- The Go values that a struct holds before anything is decoded into it: January 1, year 1.
abbrev pub zero_time : Time
zero_time = negsuc 62135596799999999999

abbrev pub second : ℕ
second = 1000000000

-- The texts of instants: `time.Parse` with the layouts RFC3339 and "2006-01-02T15:04:05Z", and the
-- text that `MarshalJSON` writes, which fails outside the years 0 to 9999.
pub record TimeText : Type 0 where
  pub parse_rfc3339 : Text → Option Time
  pub parse_utc : Text → Option Time
  pub format : Time → Option Text
  pub parse-format : (t : Time) (s : Text) → format t ≡ some s → parse_rfc3339 s ≡ some t
  pub format_filled : (t : Time) (s : Text) → format t ≡ some s → is_empty s ≡ false
