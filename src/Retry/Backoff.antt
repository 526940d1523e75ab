-- ===== src/Retry/Backoff.antt =====
-- The waits between the attempts of an event.
use raider_worker.Json.{Json}
use raider_worker.Kafka.{index_panic, produce}
use raider_worker.Event.Types.{Event}
use raider_worker.Time.{Duration, TimeText, Time}
use raider_worker.Retry.Publisher.{
  publish, backoff, seconds, publish_after, at_index, backoff_schedule, retry_topic,
}
use raider_worker.Base.{
  Text, add64, add64-suc, arith, min_int64, pos, some, sub64-pred, suc, zero, ℕ, ℤ, ◌<ℤ◌, ◌<◌, ◌≡◌,
  ◌≤ℤ◌, ◌≤◌, if◌then◌else◌, leb_ℤ, nat_beq, negsuc, none, refl, sub64, Option, ap, subst, ◌∙◌, ◌≢◌,
}

-- The entry of the schedule after `n` failures.
abbrev wait : ℕ → Duration
wait n =
    if nat_beq n 0
    then seconds 30
    else if nat_beq n 1
    then seconds 60
    else if nat_beq n 2
    then seconds 300
    else if nat_beq n 3
    then seconds 900
    else seconds 1800

at_wait :
    (n : ℕ)
    → at_index backoff_schedule (if leb_ℤ (pos 5) (pos n) then pos 4 else pos n) ≡ some (wait n)
at_wait zero = refl
at_wait (suc zero) = refl
at_wait (suc (suc zero)) = refl
at_wait (suc (suc (suc zero))) = refl
at_wait (suc (suc (suc (suc zero)))) = refl
at_wait (suc (suc (suc (suc (suc n))))) = ground arith

backoff-wait : (n : ℕ) → n < 0x7fffffffffffffff → backoff (add64 (pos n) (pos 1)) ≡ some (wait n)
unfolding backoff
backoff-wait n h = rw (add64-suc n h, sub64-pred n h) (at_wait n)

wait_low : (n : ℕ) → seconds 30 ≤ℤ wait n
wait_low n = ground arith

wait_mono : (m n : ℕ) → m ≤ n → wait m ≤ℤ wait n
wait_mono m n h = ground arith

wait_high : (n : ℕ) → wait n ≤ℤ seconds 1800
wait_high n = ground arith

backoff_negative : (c : ℤ) → c <ℤ pos 0 → min_int64 ≤ℤ c → backoff (add64 c (pos 1)) ≡ none
unfolding backoff add64 sub64
backoff_negative (pos n) h l = absurd (omega arith)
backoff_negative (negsuc n) h l = ground arith

-- An event whose retry count is not negative waits at least 30 seconds and at most 30 minutes, and
-- one that has failed more often never waits less.
pub backoff_bounds :
    (m n : ℕ)
    → m ≤ n
    → n < 0x7fffffffffffffff
    → (d e : Duration) × (backoff (add64 (pos m) (pos 1)) ≡ some d)
      × (backoff (add64 (pos n) (pos 1)) ≡ some e)
      × (seconds 30 ≤ℤ d)
      × (d ≤ℤ e)
      × (e ≤ℤ seconds 1800)
backoff_bounds m n le fits = (
  wait m,
  wait n,
  backoff-wait m (omega arith),
  backoff-wait n fits,
  wait_low m,
  wait_mono m n le,
  wait_high n,
)

-- A negative retry count, which no check of the envelope refuses, makes `Publish` index the
-- schedule out of range: it panics, for every event, time and reason.
pub negative_count_panics :
    ⦃times : TimeText⦄ (now : Time) (e : Event) (reason : Text)
    → e.retry_count <ℤ pos 0
    → min_int64 ≤ℤ e.retry_count
    → publish now e reason ≡ index_panic
unfolding publish
negative_count_panics now e reason neg fits =
    rw (backoff_negative e.retry_count neg fits) (unfold publish_after in refl)

produce_returns : (topic key : Text) (o : Option Json) → produce topic key o ≢ index_panic
produce_returns topic key none h = absurd (cc)
produce_returns topic key (some j) h = absurd (cc)

-- With a count from 0 to below the largest int, `Publish` does not panic.
pub count_fits_returns :
    ⦃times : TimeText⦄ (now : Time) (e : Event) (reason : Text)
    → pos 0 ≤ℤ e.retry_count
    → e.retry_count <ℤ pos 0x7fffffffffffffff
    → publish now e reason ≢ index_panic
unfolding publish publish_after
count_fits_returns now e reason low high h = from_count e.retry_count refl low high
  where
    from_count : (c : ℤ) → e.retry_count ≡ c → pos 0 ≤ℤ c → c <ℤ pos 0x7fffffffffffffff → ⊥
    from_count (negsuc n) is low high = absurd (omega arith)
    from_count (pos n) is low high =
        let delay = backoff-wait n (omega arith) in
        produce_returns (retry_topic e.topic) e.tenant_id _ (
          subst (λ o. publish_after now e reason o ≡ index_panic)
            (ap (λ c. backoff (add64 c (pos 1))) is ∙ delay) h)
