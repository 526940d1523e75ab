-- ===== src/Retry/Tests.antt =====
-- Runs of the retry publisher and of the scheduler over Redis in memory.
use raider_worker.Retry.Cycle.{retry_cycle}
use raider_worker.Event.Envelope.{parse_and_validate}
use raider_worker.Retry.Scheduler.{republish}
use raider_worker.Event.Validation.{IsValid}
use raider_worker.Kafka.{index_panic, produced}
use raider_worker.Event.Errors.{ok}
use raider_worker.Retry.Publisher.{publish, retry_envelope, backoff, seconds}
use raider_worker.Retry.Envelope.{parse_retry_envelope, retry_object, RetryEnvelope, marshal_retry}
use raider_worker.Event.Types.{Event}
use raider_worker.Time.{Duration}
use raider_worker.Samples.Messages.{case_event, case_payload}
use raider_worker.Samples.Clock.{sample_times}
use raider_worker.Retry.Backoff.{backoff_bounds, negative_count_panics}
use raider_worker.Json.{Json, Payload, in_range}
use raider_worker.Base.{
  [], add64, arith, negsuc, pos, refl, some, text, wrap64, ◌+ℤ◌, ◌∷◌, ◌≡◌, ◌≤ℤ◌, true,
}

backoff_bounds_example :
    (d e : Duration) × (backoff (add64 (pos 0) (pos 1)) ≡ some d)
    × (backoff (add64 (pos 7) (pos 1)) ≡ some e)
    × (seconds 30 ≤ℤ d)
    × (d ≤ℤ e)
    × (e ≤ℤ seconds 1800)
backoff_bounds_example = backoff_bounds 0 7 (omega arith) (omega arith)

abbrev negative_event : Event
negative_event = record case_event { retry_count = negsuc 0 }

negative_count_panics_example : publish (pos 5) negative_event (text "timeout") ≡ index_panic
negative_count_panics_example =
    negative_count_panics (pos 5) negative_event (text "timeout") (omega arith) (omega arith)

abbrev first_retry_json : Json
first_retry_json =
    retry_object
      (record {
        version = pos 1;
        event_id = text "e1";
        event_type = text "VISIT_APPROVED";
        tenant_id = text "t1";
        timestamp = pos 1;
        payload = some case_payload;
        original_topic = text "cases";
        retry_count = pos 1;
        failure_reason = text "timeout";
        first_failure_time = pos 5;
        last_failure_time = pos 5;
        next_retry_after = pos 30000000005;
      })
      (43 ∷ 1 ∷ []) (43 ∷ 5 ∷ []) (43 ∷ 5 ∷ []) (43 ∷ 30000000005 ∷ [])

cycle_written :
    marshal_retry (retry_envelope (pos 5) case_event (text "timeout") (seconds 30))
    ≡ some first_retry_json
unfolding retry_envelope add64 wrap64 ◌+ℤ◌ marshal_retry
cycle_written = refl

case_event-IsValid : IsValid case_event
case_event-IsValid = record {
  versioned = λ h. absurd (cc);
  has_id = refl;
  has_type = refl;
  has_tenant = refl;
  has_payload = refl;
}

count_fits : in_range (add64 case_event.retry_count (pos 1)) ≡ true
unfolding add64 wrap64
count_fits = refl

retry_cycle_example :
    (env : RetryEnvelope) × (sent : Json) × (parse_retry_envelope (Payload.json first_retry_json)
      ≡ ok env)
    × (republish env
        ≡ produced (record { topic = text "cases"; key = text "t1"; value = Payload.json sent }))
    × (parse_and_validate (record {
      topic = text "cases";
      partition = pos 2;
      offset = pos 40;
      key = text "t1";
      value = Payload.json sent;
    })
        ≡ ok (record case_event {
          partition = pos 2;
          offset = pos 40;
          retry_count = add64 (pos 0) (pos 1);
          failure_reason = text "timeout";
          first_failure_time = some (pos 5);
        }))
retry_cycle_example =
    retry_cycle (pos 5) case_event (text "timeout") (seconds 30) first_retry_json (pos 2) (pos 40)
      (text "t1") case_event-IsValid refl refl count_fits cycle_written
