-- ===== src/Consumer/Dispatch.antt =====
-- `dispatch` and `dispatchRetry` of internal/consumer/consumer.go, and the job that a lane runs.
use raider_worker.Event.Envelope.{parse_and_validate}
use raider_worker.Event.Affinity.{affinity_key}
use raider_worker.Retry.Scheduler.{schedule}
use raider_worker.Retry.Envelope.{RetryEnvelope, parse_retry_envelope}
use raider_worker.Event.Errors.{GoError, error_text, Result, err, ok}
use raider_worker.Time.{TimeText, Time, zero_time}
use raider_worker.Retry.ScheduleRedis.{ScheduleRedis}
use raider_worker.Event.Types.{RawMessage, Event, Processor}
use raider_worker.OffsetManager.Manager.{Manager, PartitionKey, key_eq}
use raider_worker.OffsetManager.Manager as Offsets
use raider_worker.WorkerPool.Pool.{Pool, Sending, sent, send_panics, waits_for_room, submit}
use raider_worker.Registry as Registry
use raider_worker.Registry.{VersionKey}
use raider_worker.Kafka.{Publication}
use raider_worker.Json.{Payload}
use raider_worker.Dlq as Dlq
use raider_worker.Base.{
  Text, List, Map, Option, [], bool_eq, has_suffix, if◌then◌else◌, insert, int_eq, list_eq, lookup,
  nat_eq, none, pos, some, suc, text, unit_eq, zero, ℕ, ◌++◌, ◌∷◌,
}

-- What the closure of a job captures.
pub record Work : Type 0 where
  pub event : Event
  pub raw_value : Payload
  pub processor_name : Text
  pub processor : Processor
  pub source : RawMessage

abbrev pub place : RawMessage → PartitionKey
place raw = record { topic = raw.topic; partition = raw.partition }

module _ (redis : ScheduleRedis) where
  -- The state that the consumer works on; `published` in the order of the calls.
  pub record World : Type 0 where
    pub offsets : Manager
    pub pools : Map Text (Pool Work)
    pub schedules : redis.State
    pub published : List Publication

  -- How a call of `dispatch` ends: it panics, waits for room in a lane, or returns.
  pub data Dispatched : Type 0 where
    panics : Dispatched
    waits : Dispatched
    returns : World → Dispatched

  -- c.offsets.Complete, at the message's place.
  unfoldable pub complete_message : RawMessage → World → World
  complete_message raw w = record w { offsets = Offsets.complete (place raw) raw.offset w.offsets }

  unfoldable pub dead_letter : Publication → RawMessage → World → World
  unfolding complete_message
  dead_letter p raw w = complete_message raw (record w { published = w.published ++ p ∷ [] })

  abbrev pub put_schedules : Option GoError × redis.State → World → Option GoError × World
  put_schedules (x, s) w = (x, record w { schedules = s })

  module _ ⦃times : TimeText⦄ where
    -- The loop of `dispatchRetry` with `n` attempts left after an attempt that ended in the error
    -- given: the last error, or nil after an attempt that went well.
    unfoldable pub schedule_attempts :
        ℕ → RetryEnvelope → Option GoError × redis.State → Option GoError × redis.State
    schedule_attempts n env (none, s) = (none, s)
    schedule_attempts zero env (some x, s) = (some x, s)
    schedule_attempts (suc n) env (some x, s) = schedule_attempts n env (schedule redis env s)

    -- The event that `dispatchRetry` makes for the dead letter queue.
    unfoldable pub retry_event : RetryEnvelope → RawMessage → Event
    retry_event env raw = record {
      version = pos 0;
      event_id = env.event_id;
      event_type = env.event_type;
      tenant_id = env.tenant_id;
      timestamp = zero_time;
      payload = none;
      topic = env.original_topic;
      partition = raw.partition;
      offset = raw.offset;
      retry_count = pos 0;
      failure_reason = [];
      first_failure_time = none;
    }

    unfoldable pub after_schedule :
        Time → RawMessage → RetryEnvelope → Option GoError × redis.State → World → World
    unfolding dead_letter complete_message
    after_schedule now raw env (none, s) w = complete_message raw (record w { schedules = s })
    after_schedule now raw env (some x, s) w =
        dead_letter
          (Dlq.publish now (retry_event env raw) raw.value
            (text "failed to schedule retry: " ++ error_text x) env.retry_count)
          raw (record w { schedules = s })

    unfoldable pub after_retry_envelope : Time → RawMessage → Result RetryEnvelope → World → World
    after_retry_envelope now raw (err x) w =
        dead_letter (Dlq.publish_raw now raw (text "invalid retry envelope: " ++ error_text x)) raw
          w
    after_retry_envelope now raw (ok env) w =
        after_schedule now raw env (schedule_attempts 2 env (schedule redis env w.schedules)) w

    -- `dispatchRetry`.
    unfoldable pub dispatch_retry : Time → RawMessage → World → World
    dispatch_retry now raw w = after_retry_envelope now raw (parse_retry_envelope raw.value) w

    unfoldable pub after_submit : Text → Sending Work → World → Dispatched
    after_submit topic send_panics w = panics
    after_submit topic waits_for_room w = waits
    after_submit topic (sent p) w = returns (record w { pools = insert topic p w.pools })

    unfoldable pub after_pool :
        Time → RawMessage → Event → Processor → Option (Pool Work) → World → Dispatched
    after_pool now raw e processor none w =
        returns (
          dead_letter (Dlq.publish now e raw.value (text "no worker pool for topic") (pos 0)) raw w)
    after_pool now raw e processor (some pool) w =
        after_submit raw.topic
          (submit (affinity_key e)
            (record {
              event = e;
              raw_value = raw.value;
              processor_name = e.event_type;
              processor = processor;
              source = raw;
            })
            pool)
          w

    unfoldable pub after_resolve : Time → RawMessage → Event → Result Processor → World → Dispatched
    after_resolve now raw e (err x) w =
        returns (dead_letter (Dlq.publish now e raw.value (error_text x) (pos 0)) raw w)
    after_resolve now raw e (ok processor) w =
        after_pool now raw e processor (lookup raw.topic w.pools) w

    unfoldable pub after_parse :
        Map VersionKey Processor → Time → RawMessage → Result Event → World → Dispatched
    after_parse processors now raw (err x) w =
        returns (dead_letter (Dlq.publish_raw now raw (error_text x)) raw w)
    after_parse processors now raw (ok e) w =
        after_resolve now raw e (Registry.resolve e.event_type e.version processors) w

    -- `dispatch`.
    unfoldable pub dispatch : Map VersionKey Processor → Time → RawMessage → World → Dispatched
    dispatch processors now raw w =
        if has_suffix raw.topic (text ".retry")
        then returns (dispatch_retry now raw w)
        else after_parse processors now raw (parse_and_validate raw) w
