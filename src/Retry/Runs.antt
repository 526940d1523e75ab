-- ===== src/Retry/Runs.antt =====
-- Runs of the scheduler over Redis in memory.
use raider_worker.Event.Errors.{GoError, message, ok}
use raider_worker.Retry.Envelope.{marshal_retry, retry_object, RetryEnvelope}
use raider_worker.Time.{second, Time}
use raider_worker.Samples.Messages.{case_payload}
use raider_worker.Samples.Clock.{sample_times}
use raider_worker.Samples.Memory.{schedule_memory}
use raider_worker.Retry.ScheduleRedis.{ScheduleRedis}
use raider_worker.Retry.RoundTrip.{IsSound}
use raider_worker.Retry.Scheduler.{
  schedule, persist, schedule_key, payload_key, claim, republish, unix, claim_amid, tick, claim_all,
}
use raider_worker.Retry.Handover.{claim-schedule}
use raider_worker.Retry.Waiting.{waits_for_backoff}
use raider_worker.Retry.Callback.{early_callback_loses_retry, callback_fails}
use raider_worker.Json.{Json, Payload}
use raider_worker.Base.{
  [], bool_eq, contains, delete, insert, int_eq, list_eq, lookup, nat_eq, none, pos, refl, some,
  suc, text, unit_eq, ◌*◌, ◌+ℤ◌, ◌∷◌, ◌≡◌, List, Text, arith, elem, false,
}

abbrev pub retried : RetryEnvelope
retried = record {
  version = pos 1;
  event_id = text "e1";
  event_type = text "VISIT_APPROVED";
  tenant_id = text "t1";
  timestamp = pos 1;
  payload = some case_payload;
  original_topic = text "cases";
  retry_count = pos 1;
  failure_reason = text "timeout";
  first_failure_time = pos 5;
  last_failure_time = pos 5;
  next_retry_after = pos 30000000005;
}

retried-IsSound : IsSound retried
retried-IsSound = record {
  version_fits = refl;
  count_fits = refl;
  has_id = refl;
  has_topic = refl;
  has_payload = refl;
}

abbrev pub redis : ScheduleRedis
redis = schedule_memory

unfoldable pub nothing : redis.State
unfolding schedule_memory
nothing = record { values = []; scores = [] }

abbrev later : Time
later = pos 60000000000

is_scheduled : (schedule redis retried nothing).0 ≡ none
unfolding schedule persist schedule_memory marshal_retry nothing
is_scheduled = refl

abbrev soon : Time
soon = pos 29999999999

waits_for_backoff_example :
    let s1 = (schedule redis retried nothing).1 in
    let s2 = (tick redis soon s1).1 in
    ((due : List Text) × (elem (text "e1") due ≡ false)
      × (tick redis soon s1 ≡ claim_all redis due s1))
    × (redis.score schedule_key (text "e1") s2 ≡ some (unix retried.next_retry_after))
    × (redis.value (payload_key (text "e1")) s2 ≡ redis.value (payload_key (text "e1")) s1)
waits_for_backoff_example = waits_for_backoff redis retried nothing soon is_scheduled (omega arith)

is_taken : (redis.zrem schedule_key (text "e1") (schedule redis retried nothing).1).0 ≡ ok (suc 0)
unfolding schedule persist schedule_memory marshal_retry nothing insert lookup contains
is_taken = refl

abbrev retried_json : Json
retried_json =
    retry_object retried (43 ∷ 1 ∷ []) (43 ∷ 5 ∷ []) (43 ∷ 5 ∷ []) (43 ∷ 30000000005 ∷ [])

is_found :
    redis.get
      (payload_key (text "e1"))
      (redis.zrem schedule_key (text "e1") (schedule redis retried nothing).1).1
    ≡ ok (Payload.json retried_json)
unfolding schedule persist schedule_memory marshal_retry nothing insert lookup contains delete
    payload_key
is_found = refl

claim-schedule_example :
    let s1 = (schedule redis retried nothing).1 in
    ((claim redis (text "e1") s1).0 ≡ some (republish retried))
    × (redis.score schedule_key (text "e1") (claim redis (text "e1") s1).1 ≡ none)
claim-schedule_example =
    claim-schedule redis retried nothing 0 (Payload.json retried_json) retried-IsSound is_scheduled
      is_taken is_found

abbrev refused : GoError
refused = message (text "NOT_LEADER_FOR_PARTITION")

abbrev taken_off : redis.State
taken_off = (redis.zrem schedule_key (text "e1") (schedule redis retried nothing).1).1

rescheduled :
    (schedule redis (record retried { next_retry_after = later +ℤ pos (15 * second) }) taken_off).0
    ≡ none
unfolding schedule persist schedule_memory marshal_retry nothing
rescheduled = refl

payload_deleted :
    (redis.del (payload_key (text "e1")) (callback_fails redis later refused retried taken_off)).0
    ≡ none
unfolding schedule_memory
payload_deleted = refl

early_callback_loses_retry_example :
    let s1 = (schedule redis retried nothing).1 in
    let s3 = (claim_amid redis (callback_fails redis later refused) (text "e1") s1).1 in
    (redis.score schedule_key (text "e1") s3 ≡ some (unix (later +ℤ pos (15 * second))))
    × ((claim redis (text "e1") s3).0 ≡ none)
early_callback_loses_retry_example =
    early_callback_loses_retry redis later retried refused nothing 0 (Payload.json retried_json)
      retried-IsSound is_scheduled is_taken is_found rescheduled payload_deleted
