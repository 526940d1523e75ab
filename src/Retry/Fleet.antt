-- ===== src/Retry/Fleet.antt =====
-- `Run` of internal/retry/scheduler.go in several worker instances on one Redis: each call of Redis is
-- one step, in any order.
use raider_worker.Kafka.{Publication}
use raider_worker.Json.{Payload, Decoded, malformed, decoded}
use raider_worker.Retry.Scheduler.{schedule, schedule_key, unix, payload_key, republish}
use raider_worker.Retry.Envelope.{RetryEnvelope, unmarshal_retry}
use raider_worker.Time.{TimeText, Time}
use raider_worker.Retry.ScheduleRedis.{ScheduleRedis}
use raider_worker.Event.Errors.{Result, err, ok}
use raider_worker.Base.{Text, List, [], pos, suc, zero, ℕ, ◌++◌, ◌∷◌, ◌≡◌}

-- Where an instance stands in `claim`: it has taken an id off the schedule, has read its envelope,
-- or has handed it to Kafka and not yet deleted the payload.
pub data Claiming : Type 0 where
  free : Claiming
  has_taken : Text → Claiming
  has_read : Text → RetryEnvelope → Claiming
  has_sent : Text → Claiming

-- An instance in its tick, with the due ids that it has still to claim.
pub record Instance : Type 0 where
  pub due : List Text
  pub claiming : Claiming

-- After the ZREM of an id.
unfoldable pub after_reply : Text → Result ℕ → Claiming
after_reply event_id (err x) = free
after_reply event_id (ok zero) = free
after_reply event_id (ok (suc n)) = has_taken event_id

unfoldable pub after_decode : Text → Decoded RetryEnvelope → Claiming
after_decode event_id (malformed problem) = free
after_decode event_id (decoded env) = has_read event_id env

-- After the GET of its payload.
unfoldable pub after_read : ⦃times : TimeText⦄ → Text → Result Payload → Claiming
unfolding after_decode
after_read event_id (err x) = free
after_read event_id (ok raw) = after_decode event_id (unmarshal_retry raw)

module _ (redis : ScheduleRedis) where
  -- `scheduled` are the ids of all calls of `Schedule`, and `republished` the calls of `republish`,
  -- with the id that was claimed.
  pub record Fleet : Type 0 where
    pub server : redis.State
    pub instances : List Instance
    pub scheduled : List Text
    pub republished : List (Text × Publication)

  module _ ⦃times : TimeText⦄ where
    -- `Schedule` is called by `dispatchRetry`, and by the callback of a refused republication.
    pub data Step (f : Fleet) : Fleet → Type 0 where
      schedules :
          (env : RetryEnvelope)
          → Step f (record f {
            server = (schedule redis env f.server).1;
            scheduled = env.event_id ∷ f.scheduled;
          })
      polls :
          (now : Time) (before after : List Instance) (due : List Text)
          → f.instances ≡ before ++ (record { due = []; claiming = free }) ∷ after
          → redis.range_by_score schedule_key (pos 0) (unix now) 500 f.server ≡ ok due
          → Step f
              (record f { instances = before ++ (record { due = due; claiming = free }) ∷ after })
      claims :
          (before after : List Instance) (event_id : Text) (rest : List Text)
          → f.instances ≡ before ++ (record { due = event_id ∷ rest; claiming = free }) ∷ after
          → Step f (record f {
            server = (redis.zrem schedule_key event_id f.server).1;
            instances =
                before
                ++ (record {
                  due = rest;
                  claiming = after_reply event_id (redis.zrem schedule_key event_id f.server).0;
                })
                  ∷ after;
          })
      reads :
          (before after : List Instance) (event_id : Text) (rest : List Text)
          → f.instances ≡ before ++ (record { due = rest; claiming = has_taken event_id }) ∷ after
          → Step f (record f {
            instances =
                before
                ++ (record {
                  due = rest;
                  claiming = after_read event_id (redis.get (payload_key event_id) f.server);
                })
                  ∷ after;
          })
      sends :
          (before after : List Instance) (event_id : Text) (env : RetryEnvelope) (rest : List Text)
          → f.instances
            ≡ before ++ (record { due = rest; claiming = has_read event_id env }) ∷ after
          → Step f (record f {
            instances = before ++ (record { due = rest; claiming = has_sent event_id }) ∷ after;
            republished = (event_id, republish env) ∷ f.republished;
          })
      deletes :
          (before after : List Instance) (event_id : Text) (rest : List Text)
          → f.instances ≡ before ++ (record { due = rest; claiming = has_sent event_id }) ∷ after
          → Step f (record f {
            server = (redis.del (payload_key event_id) f.server).1;
            instances = before ++ (record { due = rest; claiming = free }) ∷ after;
          })

    pub data Reach (f : Fleet) : Fleet → Type 0 where
      here : Reach f f
      later : {g h : Fleet} → Reach f g → Step g h → Reach f h
