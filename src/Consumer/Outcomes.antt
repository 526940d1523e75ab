-- ===== src/Consumer/Outcomes.antt =====
-- How a call of `dispatch` of internal/consumer/consumer.go can end that returns.
use raider_worker.Dlq as Dlq
-- completes it.
use raider_worker.Retry.Scheduler.{schedule}
use raider_worker.Event.Affinity.{affinity_key}
use raider_worker.Event.Errors.{ok, GoError, err, error_text}
use raider_worker.Retry.Envelope.{RetryEnvelope, parse_retry_envelope}
use raider_worker.Kafka.{Publication}
use raider_worker.Event.Envelope.{parse_and_validate}
use raider_worker.Retry.ScheduleRedis.{ScheduleRedis}
use raider_worker.Event.Types.{RawMessage, Event, Processor}
use raider_worker.Time.{TimeText, Time}
use raider_worker.Consumer.Dispatch.{World, Work, place, schedule_attempts, retry_event}
use raider_worker.OffsetManager.Manager.{Manager, PartitionKey, key_eq}
use raider_worker.OffsetManager.Manager as Offsets
use raider_worker.WorkerPool.Pool.{Pool, sent, submit}
use raider_worker.Registry as Registry
use raider_worker.Registry.{VersionKey}
use raider_worker.Base.{
  Map, [], bool_eq, insert, int_eq, list_eq, lookup, nat_eq, none, some, unit_eq, ◌++◌, ◌∷◌, ◌≡◌,
  text, pos, Bool, false, has_suffix, true,
}

-- The record is completed, and no lane has it.
pub record Completed (redis : ScheduleRedis) (raw : RawMessage) (w w' : World redis) : Type 0 where
  pub offsets : w'.offsets ≡ Offsets.complete (place raw) raw.offset w.offsets
  pub pools : w'.pools ≡ w.pools

-- The job of an event.
abbrev pub work_of : RawMessage → Event → Processor → Work
work_of raw e processor = record {
  event = e;
  raw_value = raw.value;
  processor_name = e.event_type;
  processor = processor;
  source = raw;
}

-- A message of a retry topic.
abbrev pub is_retry : RawMessage → Bool
is_retry raw = has_suffix raw.topic (text ".retry")

module _ ⦃times : TimeText⦄ (redis : ScheduleRedis) (processors : Map VersionKey Processor) where
  -- Why a record is given up, and the call of the dead letter publisher that is made for it.
  pub data GivenUp (now : Time) (raw : RawMessage) (w : World redis) : Publication → Type 0 where
    not_parsed :
        (x : GoError)
        → is_retry raw ≡ false
        → parse_and_validate raw ≡ err x
        → GivenUp now raw w (Dlq.publish_raw now raw (error_text x))
    not_resolved :
        (e : Event) (x : GoError)
        → is_retry raw ≡ false
        → parse_and_validate raw ≡ ok e
        → Registry.resolve e.event_type e.version processors ≡ err x
        → GivenUp now raw w (Dlq.publish now e raw.value (error_text x) (pos 0))
    no_pool :
        (e : Event) (processor : Processor)
        → is_retry raw ≡ false
        → parse_and_validate raw ≡ ok e
        → Registry.resolve e.event_type e.version processors ≡ ok processor
        → lookup raw.topic w.pools ≡ none
        → GivenUp now raw w (Dlq.publish now e raw.value (text "no worker pool for topic") (pos 0))
    no_retry_envelope :
        (x : GoError)
        → is_retry raw ≡ true
        → parse_retry_envelope raw.value ≡ err x
        → GivenUp now raw w
            (Dlq.publish_raw now raw (text "invalid retry envelope: " ++ error_text x))
    not_scheduled :
        (env : RetryEnvelope) (x : GoError)
        → is_retry raw ≡ true
        → parse_retry_envelope raw.value ≡ ok env
        → (schedule_attempts redis 2 env (schedule redis env w.schedules)).0 ≡ some x
        → GivenUp now raw w (
            Dlq.publish now
              (retry_event redis env raw)
              raw.value
              (text "failed to schedule retry: " ++ error_text x)
              env.retry_count)

  -- The dead letter publisher was called, once, and the record is completed.
  pub record DeadLettered (now : Time) (raw : RawMessage) (w w' : World redis) : Type 0 where
    pub publication : Publication
    pub reason : GivenUp now raw w publication
    pub completed : Completed redis raw w w'
    pub published : w'.published ≡ w.published ++ publication ∷ []

  -- The retry was written to the schedule.
  pub record Scheduled (raw : RawMessage) (w w' : World redis) : Type 0 where
    pub env : RetryEnvelope
    pub before : redis.State
    pub of_retry_topic : is_retry raw ≡ true
    pub completed : Completed redis raw w w'
    pub parses : parse_retry_envelope raw.value ≡ ok env
    pub succeeds : (schedule redis env before).0 ≡ none
    pub schedules : w'.schedules ≡ (schedule redis env before).1
    pub published : w'.published ≡ w.published

  -- The lane of the event's affinity key took the job, and nothing else changed.
  pub record Queued (raw : RawMessage) (w w' : World redis) : Type 0 where
    pub e : Event
    pub processor : Processor
    pub pool : Pool Work
    pub pool' : Pool Work
    pub of_main_topic : is_retry raw ≡ false
    pub parses : parse_and_validate raw ≡ ok e
    pub resolves : Registry.resolve e.event_type e.version processors ≡ ok processor
    pub found : lookup raw.topic w.pools ≡ some pool
    pub submits : submit (affinity_key e) (work_of raw e processor) pool ≡ sent pool'
    pub same : w' ≡ record w { pools = insert raw.topic pool' w.pools }
