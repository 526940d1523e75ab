-- ===== src/Retry/Publisher.antt =====
-- `Publisher` of internal/retry/retry.go: the retry budget, the backoff, and the retry topic.
use raider_worker.Metrics.{Metric, messages_retried}
use raider_worker.Kafka.{Publication, index_panic, produce}
use raider_worker.Event.Errors.{GoError}
use raider_worker.Retry.Envelope.{RetryEnvelope, marshal_retry}
use raider_worker.Event.Types.{Event}
use raider_worker.Time.{Duration, Time, TimeText, second}
use raider_worker.Base.{
  Bool, List, Option, Text, [], add64, get_elem?, if◌then◌else◌, leb_ℤ, ltb_ℤ, negsuc, none, pos,
  some, sub64, text, ℕ, ℤ, ◌*◌, ◌++◌, ◌+ℤ◌, ◌∷◌,
}

-- `ShouldRetry`.
unfoldable pub should_retry : ℤ → ℤ → Bool
should_retry max_retries retry_count = ltb_ℤ retry_count max_retries

abbrev pub seconds : ℕ → Duration
seconds n = pos (n * second)

-- 30s, 1m, 5m, 15m, 30m.
abbrev pub backoff_schedule : List Duration
backoff_schedule = seconds 30 ∷ seconds 60 ∷ seconds 300 ∷ seconds 900 ∷ seconds 1800 ∷ []

-- `backoffSchedule[i]`: nothing where Go panics.
abbrev pub at_index : List Duration → ℤ → Option Duration
at_index ds (pos i) = get_elem? ds i
at_index ds (negsuc i) = none

-- The wait before the attempt with this retry count.
unfoldable pub backoff : ℤ → Option Duration
backoff retry_count =
    let backoff_idx = sub64 retry_count (pos 1) in
    at_index backoff_schedule (if leb_ℤ (pos 5) backoff_idx then pos 4 else backoff_idx)

unfoldable pub retry_topic : Text → Text
retry_topic topic = topic ++ text ".retry"

abbrev pub or_now : Time → Option Time → Time
or_now now none = now
or_now now (some t) = t

-- The envelope of `Publish`, at the time `now` and with the wait `delay`.
unfoldable pub retry_envelope : Time → Event → Text → Duration → RetryEnvelope
retry_envelope now e failure_reason delay = record {
  version = e.version;
  event_id = e.event_id;
  event_type = e.event_type;
  tenant_id = e.tenant_id;
  timestamp = e.timestamp;
  payload = e.payload;
  original_topic = e.topic;
  retry_count = add64 e.retry_count (pos 1);
  failure_reason = failure_reason;
  first_failure_time = or_now now e.first_failure_time;
  last_failure_time = now;
  next_retry_after = now +ℤ delay;
}

module _ ⦃times : TimeText⦄ where
  unfoldable pub publish_after : Time → Event → Text → Option Duration → Publication
  publish_after now e failure_reason none = index_panic
  publish_after now e failure_reason (some delay) =
      produce (retry_topic e.topic) e.tenant_id
        (marshal_retry (retry_envelope now e failure_reason delay))

  -- `Publish`.
  unfoldable pub publish : Time → Event → Text → Publication
  publish now e failure_reason =
      publish_after now e failure_reason (backoff (add64 e.retry_count (pos 1)))

-- The callback of `Publish`, for the error that the broker answers with.
unfoldable pub retry_delivered : Event → Option GoError → List Metric
retry_delivered e (some produce_err) = []
retry_delivered e none = messages_retried e.topic e.event_type e.tenant_id ∷ []
