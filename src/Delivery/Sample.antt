-- ===== src/Delivery/Sample.antt =====
-- A run of the worker: a message is fetched, queued, taken and processed.
use raider_worker.Retry.Envelope.{marshal_retry}
use raider_worker.Base.{contains}
use raider_worker.Retry.Publisher.{should_retry}
use raider_worker.Middleware.{execute, process, finish}
use raider_worker.Consumer.Fallback.{process_with_fallback, route}
use raider_worker.Retry.Publisher as RetryPublisher
use raider_worker.Event.Errors.{is_retriable, as_invalid_envelope, as_business_validation}
use raider_worker.Consumer.Job.{JobEnd, Ending, job_panics, job_returns, run_job}
use raider_worker.OffsetManager.Manager.{PartitionKey, key_eq}
use raider_worker.OffsetManager.Session.{later}
use raider_worker.WorkerPool.Hash.{sum32}
use raider_worker.Event.Errors.{error_text, here}
use raider_worker.Event.Types.{Processor}
use raider_worker.Event.Envelope.{
  parse_and_validate, after_unmarshal, unmarshal_envelope, check_envelope, missing_field,
  after_check, after_timestamp, parse_timestamp, event_of,
}
use raider_worker.Retry.ScheduleRedis.{ScheduleRedis}
use raider_worker.Consumer.Polling.{Fetched, track_record}
use raider_worker.Consumer.Pools.{new_pools, buffer_per_lane, quotient}
use raider_worker.Consumer.Outcomes.{work_of}
use raider_worker.Registry.{VersionKey, resolve}
use raider_worker.Event.Affinity.{affinity_key, extract_case_id}
use raider_worker.Config.Load.{WorkerConfig}
use raider_worker.Idempotency.{Store}
use raider_worker.Base.{
  Text, Map, [], bool_eq, false, has_suffix, insert, int_eq, list_eq, nat_eq, none, pos, refl, some,
  text, unit_eq, ◌∷◌, ◌≡◌, lookup, arith, add64, sub64, wrap64,
}
use raider_worker.Samples.Messages.{case_message, case_event, garbage_message, background, failing}
use raider_worker.Samples.Clock.{sample_times}
use raider_worker.Samples.Memory.{schedule_memory, memory}
use raider_worker.Idempotency.RedisStore.{redis_store}
use raider_worker.Delivery.Worker.{Worker, starting, fetch, take, end_job, offsets_at}
use raider_worker.Delivery.Interleaving.{Reach, later, here, fetches, takes, ends, dispatches}
use raider_worker.Consumer.Dispatch.{
  World, Work, dispatch, returns, after_parse, after_resolve, after_pool, after_submit, place,
}
use raider_worker.WorkerPool.Pool.{Pool, Lane, Job, receive, submit, lane_for, take_job}
use raider_worker.WorkerPool.Pool as WorkerPool

abbrev pub redis : ScheduleRedis
redis = schedule_memory

abbrev pub store : Store
store = redis_store memory

abbrev pub no_claims : store.State
unfolding redis_store memory
no_claims = []

abbrev pub no_schedules : redis.State
unfolding schedule_memory
no_schedules = record { values = []; scores = [] }

abbrev pub settings : WorkerConfig
settings = record {
  case_count = pos 1;
  payment_count = pos 1;
  visit_count = pos 1;
  notification_count = pos 1;
  queue_buffer_size = pos 60;
}

abbrev pub pool : Pool Work
pool = record { lanes = (record { jobs = []; buffer = 60 }) ∷ []; closed = false }

abbrev pub pools : Map Text (Pool Work)
pools =
    (text "cases", pool)
    ∷ (text "payments", pool)
    ∷ (text "visits", pool)
    ∷ (text "notifications", pool)
    ∷ []

pub made : new_pools settings ≡ some pools
unfolding new_pools buffer_per_lane quotient WorkerPool.new WorkerPool.make_lanes
made = refl

abbrev pub processors : Map VersionKey Processor
processors = (record { event_type = text "VISIT_APPROVED"; version = pos 1 }, failing) ∷ []

abbrev pub Run : Worker redis store → Type 0
Run s =
    Reach redis store (pos 5) (pos 30000000000) background processors
      (starting redis store pools no_schedules no_claims) s

abbrev pub first : Fetched
first = record { raw = case_message; leader_epoch = pos 3 }

abbrev pub second : Fetched
second = record { raw = record garbage_message { offset = pos 8 }; leader_epoch = pos 3 }

abbrev pub work : Work
work = work_of case_message case_event failing

abbrev pub job : Job Work
job = record { key = affinity_key case_event; execute = work }

abbrev pub busy_pool : Pool Work
busy_pool = record { lanes = (record { jobs = job ∷ []; buffer = 60 }) ∷ []; closed = false }

abbrev pub fetched_state : Worker redis store
fetched_state = fetch redis store first (starting redis store pools no_schedules no_claims)

unfoldable pub queued_world : World redis
queued_world = record fetched_state.world { pools = insert (text "cases") busy_pool pools }

abbrev pub queued_state : Worker redis store
queued_state = record fetched_state { world = queued_world; pending = none }

pub queued :
    dispatch redis processors (pos 9) case_message fetched_state.world ≡ returns queued_world
unfolding queued_world dispatch has_suffix after_parse parse_and_validate after_unmarshal
    unmarshal_envelope error_text fetch starting track_record check_envelope missing_field
    after_resolve after_pool after_submit submit lane_for lookup insert sum32 affinity_key resolve
    after_check after_timestamp parse_timestamp event_of extract_case_id
queued = refl

abbrev pub taken_state : Worker redis store
taken_state = take redis store (text "cases") pool work queued_state

abbrev end_or : JobEnd redis store.State → Ending redis store.State → JobEnd redis store.State
end_or unused job_panics = unused
end_or unused (job_returns end) = end

abbrev pub work_end : JobEnd redis store.State
work_end =
    end_or (record { world = taken_state.world; claims = taken_state.claims; result = none })
      (run_job redis store (pos 5) (pos 30000000000) background work (pos 9) taken_state.world
        taken_state.claims)

work_returns :
    run_job redis store
      (pos 5)
      (pos 30000000000)
      background
      work
      (pos 9)
      taken_state.world
      taken_state.claims
    ≡ job_returns work_end
unfolding run_job process_with_fallback execute route is_retriable as_invalid_envelope
    as_business_validation should_retry RetryPublisher.publish RetryPublisher.publish_after
    RetryPublisher.backoff add64 sub64 wrap64 process finish redis_store memory no_claims contains
    take fetch starting marshal_retry
work_returns = refl

abbrev pub ended_state : Worker redis store
ended_state = end_job redis store work_end [] taken_state

pub fetched_run : Run fetched_state
unfolding starting offsets_at track_record
fetched_run = later here (fetches first refl (omega arith) (omega arith))

pub queued_run : Run queued_state
unfolding fetch
queued_run = later fetched_run (dispatches (pos 9) case_message queued_world refl queued)

pub taken_run : Run taken_state
unfolding queued_world lookup insert receive take_job starting fetch track_record
taken_run = later queued_run (takes (text "cases") 0 busy_pool pool job refl refl)

pub ended_run : Run ended_state
unfolding take fetch starting queued_world track_record
ended_run = later taken_run (ends (pos 9) [] [] work work_end refl work_returns)

abbrev pub cases_0 : PartitionKey
cases_0 = place case_message

pub ended_pending : ended_state.pending ≡ none
unfolding end_job take fetch starting queued_world
ended_pending = refl

pub ended_fetched : offsets_at cases_0 ended_state.fetched ≡ pos 7 ∷ []
unfolding end_job take fetch starting queued_world offsets_at
ended_fetched = refl
