-- ===== src/Consumer/Tests.antt =====
-- Runs of the consumer: a revocation, one dispatch, and one job.
use raider_worker.Consumer.Revocation.{revoke_commits_newest}
use raider_worker.Consumer.Rebalance.{revoke_partition}
use raider_worker.OffsetManager.Partition.{mark_complete, track_state, new_state}
use raider_worker.OffsetManager.Waiting.{Others}
use raider_worker.OffsetManager.Session.{here, remove_one, View, Session, later, completes}
use raider_worker.Event.Envelope.{parse_and_validate, after_unmarshal, unmarshal_envelope}
use raider_worker.Event.Errors.{FinalIn, GoError, error_text, message}
use raider_worker.Samples.Messages.{case_message, case_event, garbage_message, background, failing}
use raider_worker.Samples.Clock.{sample_times}
use raider_worker.Samples.Memory.{schedule_memory, memory}
use raider_worker.Idempotency.RedisStore.{redis_store}
use raider_worker.Idempotency.{Store}
use raider_worker.OffsetManager.Manager.{PartitionKey, key_eq, Manager}
use raider_worker.OffsetManager.Manager as Offsets
use raider_worker.Consumer.Fallback.{route, route_exact}
use raider_worker.Consumer.Dispatch.{
  World, Work, dispatch, dead_letter, returns, place, after_parse,
}
use raider_worker.Consumer.Outcomes.{DeadLettered, Scheduled, Queued, work_of}
use raider_worker.Consumer.Settlement.{dispatch_ends}
use raider_worker.Consumer.Job.{JobEnds, pipeline_run, run_job, job_ends}
use raider_worker.Retry.ScheduleRedis.{ScheduleRedis}
use raider_worker.Retry.Publisher as RetryPublisher
use raider_worker.Dlq as Dlq
use mathlib.Core.Option.{some-injective}
use native.Mathlib.Nat.{mod-lt}
use raider_worker.WorkerPool.Pool.{Lane, Pool, get_lane, is_full, is_lane_full, lane_for}
use raider_worker.WorkerPool.Hash.{sum32}
use raider_worker.Consumer.Returns.{IsOpen, dispatch_returns}
use raider_worker.Base.{
  [], has_suffix, pos, refl, some, text, ◌<ℤ◌, ◌∷◌, ◌≡◌, ◌≤ℤ◌, ◌⊎◌, arith, bool_eq, elem, int_eq,
  list_eq, lookup, nat_eq, true, unit_eq, ℤ, ◌||◌, List, false, subst, suc, zero, ℕ, ◌%◌, ◌<◌,
}

abbrev timeout_error : GoError
timeout_error = message (text "timeout")

route_exact_example :
    (FinalIn timeout_error
      × (route (pos 5) (pos 9) case_event case_message.value (some timeout_error)
          ≡ some (
              Dlq.publish
                (pos 9)
                case_event
                case_message.value
                (error_text timeout_error)
                (pos 0))))
    ⊎ (¬ FinalIn timeout_error
        × (pos 5 ≤ℤ pos 0)
        × (route (pos 5) (pos 9) case_event case_message.value (some timeout_error)
            ≡ some (
                Dlq.publish
                  (pos 9)
                  case_event
                  case_message.value
                  (error_text timeout_error)
                  (pos 0))))
    ⊎ (¬ FinalIn timeout_error
        × (pos 0 <ℤ pos 5)
        × (route (pos 5) (pos 9) case_event case_message.value (some timeout_error)
            ≡ some (RetryPublisher.publish (pos 9) case_event (error_text timeout_error))))
route_exact_example = route_exact (pos 5) (pos 9) case_event case_message.value timeout_error

abbrev redis : ScheduleRedis
redis = schedule_memory

unfoldable world : World redis
unfolding schedule_memory
world = record {
  offsets = Offsets.track (place case_message) (pos 7) (pos 1) Offsets.new;
  pools = [];
  schedules = record { values = []; scores = [] };
  published = [];
}

unfoldable dead_world : World redis
dead_world =
    dead_letter redis
      (Dlq.publish_raw (pos 9) garbage_message
        (text "invalid envelope: json unmarshal: unexpected end of JSON input"))
      garbage_message world

is_dead : dispatch redis [] (pos 9) garbage_message world ≡ returns dead_world
unfolding dead_world dispatch has_suffix after_parse parse_and_validate after_unmarshal
    unmarshal_envelope error_text
is_dead = refl

dispatch_ends_example :
    DeadLettered redis [] (pos 9) garbage_message world dead_world
    ⊎ Scheduled redis [] garbage_message world dead_world
    ⊎ Queued redis [] garbage_message world dead_world
dispatch_ends_example = dispatch_ends redis [] (pos 9) garbage_message world dead_world is_dead

abbrev store : Store
store = redis_store memory

unfoldable no_claims : store.State
unfolding redis_store memory
no_claims = []

abbrev case_work : Work
case_work = work_of case_message case_event failing

job_ends_example :
    JobEnds redis store
      (pos 5)
      (pos 30000000000)
      case_work
      (pos 9)
      world
      (pipeline_run redis store (pos 5) (pos 30000000000) background case_work (pos 9) no_claims)
      (run_job redis store (pos 5) (pos 30000000000) background case_work (pos 9) world no_claims)
job_ends_example =
    job_ends redis store (pos 5) (pos 30000000000) background case_work (pos 9) world no_claims

abbrev cases_0 : PartitionKey
cases_0 = record { topic = text "cases"; partition = pos 0 }

abbrev one_tracked : View
one_tracked = record {
  newest = pos 0;
  in_work = pos 0 ∷ [];
  done = [];
  state = track_state (pos 0) (pos 3) new_state;
}

abbrev one_done : View
one_done = record {
  newest = pos 0;
  in_work = remove_one (pos 0) one_tracked.in_work;
  done = pos 0 ∷ [];
  state = mark_complete (pos 0) one_tracked.state;
}

one-Session : Session (pos 0) one_done
unfolding remove_one
one-Session = record {
  epoch = pos 3;
  low = omega arith;
  high = omega arith;
  reach = later here (completes (pos 0) refl);
}

abbrev managing : Manager
managing = record { partitions = (cases_0, one_done.state) ∷ []; channels = [] }

found : lookup cases_0 managing.partitions ≡ some one_done.state
unfolding lookup
found = refl

dense : (o : ℤ) → pos 0 ≤ℤ o → o ≤ℤ pos 0 → (elem o one_done.in_work || elem o one_done.done) ≡ true
unfolding remove_one
dense o p q = ground arith

abbrev nobody : Others
nobody = []

revoke_commits_newest_example :
    (revoke_partition nobody cases_0 managing).1
    ≡ some (record { key = cases_0; offset = pos 0; leader_epoch = pos 3 })
unfolding remove_one mark_complete track_state
revoke_commits_newest_example =
    revoke_commits_newest one-Session nobody cases_0 managing found refl dense (omega arith)

abbrev two_lanes : List (Lane Work)
two_lanes = record { jobs = []; buffer = 50 } ∷ record { jobs = []; buffer = 50 } ∷ []

abbrev cases_pool : Pool Work
cases_pool = record { lanes = two_lanes; closed = false }

has_room : (i : ℕ) → i < 2 → is_full (get_lane two_lanes i) ≡ false
has_room zero h = refl
has_room (suc zero) h = refl
has_room (suc (suc i)) h = absurd (omega arith)

cases_pool-IsOpen : IsOpen cases_pool
unfolding is_lane_full lane_for
cases_pool-IsOpen = record {
  running = refl;
  room = λ key. has_room (sum32 key % 2) (mod-lt (sum32 key) (omega arith));
}

unfoldable open_world : World redis
open_world = record world { pools = (text "cases", cases_pool) ∷ [] }

pools-IsOpen :
    (pool : Pool Work) → lookup case_message.topic open_world.pools ≡ some pool → IsOpen pool
unfolding open_world lookup
pools-IsOpen pool h = subst IsOpen (some-injective _ _ h) cases_pool-IsOpen

dispatch_returns_example :
    (w' : World redis) × (dispatch redis [] (pos 9) case_message open_world ≡ returns w')
dispatch_returns_example = dispatch_returns redis [] (pos 9) case_message open_world pools-IsOpen
