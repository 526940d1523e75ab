-- ===== src/Samples/Clock.antt =====
-- Times with a text of one letter and one number.
use mathlib.Core.Option.{some-injective}
use raider_worker.Time.{Time, TimeText}
use raider_worker.Base.{
  Text, Option, [], bool_eq, false, if◌then◌else◌, int_eq, is_empty, list_eq, nat_eq, negsuc, none,
  pos, some, unit_eq, ◌==◌, ◌∷◌, ◌≡◌,
}

abbrev pub after_epoch : Text → Option Time
after_epoch [] = none
after_epoch (n ∷ s) = some (pos n)

abbrev pub before_epoch : Text → Option Time
before_epoch [] = none
before_epoch (n ∷ s) = some (negsuc n)

abbrev pub parse : Text → Option Time
parse [] = none
parse (c ∷ s) = if c == 43 then after_epoch s else if c == 45 then before_epoch s else none

abbrev pub write : Time → Text
write (pos n) = 43 ∷ n ∷ []
write (negsuc n) = 45 ∷ n ∷ []

pub parse-write : (t : Time) (s : Text) → some (write t) ≡ some s → parse s ≡ some t
parse-write (pos n) s h = rw (← some-injective _ _ h)
parse-write (negsuc n) s h = rw (← some-injective _ _ h)

pub write_filled : (t : Time) (s : Text) → some (write t) ≡ some s → is_empty s ≡ false
write_filled (pos n) s h = rw (← some-injective _ _ h)
write_filled (negsuc n) s h = rw (← some-injective _ _ h)

instance abbrev pub sample_times : TimeText
sample_times = record {
  parse_rfc3339 = parse;
  parse_utc = parse;
  format = λ t. some (write t);
  parse-format = parse-write;
  format_filled = write_filled;
}
