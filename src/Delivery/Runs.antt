-- ===== src/Delivery/Runs.antt =====
-- A run in which two events of one visit wait in a lane, the second one offset after the first.
use raider_worker.Event.Affinity.{extract_case_id}
use raider_worker.Samples.Clock.{sample_times}
use raider_worker.Registry.{resolve}
use raider_worker.WorkerPool.Hash.{sum32}
use raider_worker.Event.Errors.{error_text}
use raider_worker.Consumer.Polling.{track_record}
use raider_worker.Event.Envelope.{
  parse_and_validate, after_unmarshal, unmarshal_envelope, check_envelope, missing_field,
  after_check, after_timestamp, parse_timestamp, event_of,
}
use raider_worker.Event.Affinity.{affinity_key, extract_case_id}
use raider_worker.Consumer.Outcomes.{work_of}
use raider_worker.Event.Types.{RawMessage}
use raider_worker.Samples.Messages.{background, case_message, case_event, failing}
use raider_worker.WorkerPool.Pool.{Job, receive, Pool, take_job, submit, lane_for}
use raider_worker.Consumer.Dispatch.{
  dispatch, Work, World, after_parse, after_resolve, after_pool, after_submit, returns,
}
use raider_worker.Base.{
  [], arith, bool_eq, false, has_suffix, insert, int_eq, list_eq, lookup, nat_eq, none, pos, refl,
  some, text, unit_eq, ◌<ℤ◌, ◌∷◌, ◌≡◌,
}
use raider_worker.Delivery.Starts.{starts_in_order}
use raider_worker.Delivery.Order.{Unstarted, waits}
use raider_worker.Delivery.Interleaving.{fetches, dispatches, later}
use raider_worker.Delivery.Sample.{
  redis, store, settings, pools, no_schedules, no_claims, made, processors, Run, job, queued_state,
  queued_world, queued_run,
}
use raider_worker.Delivery.Worker.{fetch, Worker, starting, take, offsets_at}

abbrev next_message : RawMessage
next_message = record case_message { offset = pos 8 }

abbrev next_work : Work
next_work = work_of next_message (record case_event { offset = pos 8 }) failing

abbrev next_job : Job Work
next_job = record { key = affinity_key case_event; execute = next_work }

abbrev full_pool : Pool Work
full_pool = record {
  lanes = (record { jobs = job ∷ next_job ∷ []; buffer = 60 }) ∷ [];
  closed = false;
}

abbrev next_state : Worker redis store
next_state = fetch redis store (record { raw = next_message; leader_epoch = pos 3 }) queued_state

unfoldable both_world : World redis
both_world = record next_state.world { pools = insert (text "cases") full_pool pools }

abbrev both_state : Worker redis store
both_state = record next_state { world = both_world; pending = none }

next_run : Run next_state
unfolding fetch starting offsets_at queued_world track_record
next_run =
    later queued_run (
      fetches (record { raw = next_message; leader_epoch = pos 3 }) refl (omega arith)
        (omega arith))

queued_next : dispatch redis processors (pos 9) next_message next_state.world ≡ returns both_world
unfolding both_world queued_world dispatch has_suffix after_parse parse_and_validate after_unmarshal
    unmarshal_envelope error_text fetch starting track_record check_envelope missing_field
    after_resolve after_pool after_submit submit lane_for lookup insert sum32 affinity_key resolve
    after_check after_timestamp parse_timestamp event_of extract_case_id
queued_next = refl

both_run : Run both_state
unfolding fetch
both_run = later next_run (dispatches (pos 9) next_message both_world refl queued_next)

abbrev left_pool : Pool Work
left_pool = record { lanes = (record { jobs = next_job ∷ []; buffer = 60 }) ∷ []; closed = false }

both_found : lookup (text "cases") both_state.world.pools ≡ some full_pool
unfolding both_world insert lookup
both_found = refl

first_taken : receive 0 full_pool ≡ some (job, left_pool)
unfolding receive take_job
first_taken = refl

left_behind :
    Unstarted
      (take redis store (text "cases") left_pool job.execute both_state).world.pools
      none
      (text "cases")
      job.key
      next_message
unfolding take both_world insert lookup
left_behind = waits left_pool 0 next_job [] [] refl refl refl

starts_in_order_example : pos 7 <ℤ pos 8
starts_in_order_example =
    starts_in_order redis store (pos 5) (pos 30000000000) background processors settings pools
      no_schedules no_claims both_state (text "cases") 0 full_pool left_pool job next_message made
      both_run both_found first_taken left_behind refl
