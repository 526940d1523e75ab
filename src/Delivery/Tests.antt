-- ===== src/Delivery/Tests.antt =====
-- The worker of the sample run fetches on, commits, and stops.
use raider_worker.Retry.Publisher as RetryPublisher
use raider_worker.Retry.Publisher.{should_retry}
use raider_worker.Retry.Envelope.{marshal_retry}
use raider_worker.Consumer.Fallback.{process_with_fallback, route}
use raider_worker.Middleware.{execute, process, finish}
use raider_worker.Event.Errors.{is_retriable, as_invalid_envelope, as_business_validation}
use raider_worker.Idempotency.RedisStore.{redis_store}
use raider_worker.Samples.Memory.{memory}
use raider_worker.Delivery.Totals.{in_pool}
use raider_worker.Base.{total}
use raider_worker.Consumer.Job.{run_job}
use raider_worker.Delivery.Draining.{Drained, unfit_jobs, count_unfit}
use raider_worker.Delivery.Shutdown.{shutdown_commits}
use raider_worker.Delivery.Commits.{commits_are_settled, held_once, Asked}
use raider_worker.OffsetManager.Partition.{
  wakes_drain, mark_complete, track_state, committable_offset, settle, advance, bump,
}
use raider_worker.Delivery.Outstanding.{outstanding, in_pools}
use raider_worker.OffsetManager.Manager.{PartitionKey, key_eq, drained}
use raider_worker.OffsetManager.Session.{later}
use raider_worker.Consumer.Polling.{track_record}
use raider_worker.Base.{
  [], bool_eq, insert, int_eq, list_eq, nat_eq, pos, refl, some, unit_eq, ◌∷◌, ◌≡◌, lookup, arith,
  elem, true, ◌≤◌, List, eq_of_parts, ℤ, ◌≤ℤ◌, add64, contains, delete, sub64, subst, sym, wrap64,
}
use raider_worker.Samples.Messages.{background}
use raider_worker.Samples.Clock.{sample_times}
use raider_worker.OffsetManager.Manager as Offsets
use raider_worker.OffsetManager.FlushAll.{record_for}
use raider_worker.Delivery.Worker.{Worker, starting, fetch, take, end_job, offsets_at, Follows}
use raider_worker.Delivery.Interleaving.{later, fetches}
use raider_worker.Consumer.Dispatch.{complete_message}
use raider_worker.Delivery.Sample.{
  redis, store, no_claims, no_schedules, settings, pools, made, processors, Run, second,
  queued_world, queued_state, taken_state, ended_state, queued_run, taken_run, ended_run, cases_0,
  ended_pending, ended_fetched,
}

dense_from :
    (fetched : List ℤ)
    → fetched ≡ pos 7 ∷ []
    → (a o : ℤ) → elem a fetched ≡ true
    → a ≤ℤ o
    → o ≤ℤ pos 7
    → elem o fetched ≡ true
dense_from fetched e a o h low high =
    let is : elem a (pos 7 ∷ []) ≡ true = rw e at h in
    rw e (ground (arith, int_eq.beq_iff (pos 7) a, int_eq.beq_iff (pos 7) o, eq_of_parts (pos 7) o))

held_once_example : outstanding redis store cases_0 (pos 7) taken_state ≤ 1
held_once_example =
    held_once redis store (pos 5) (pos 30000000000) background processors settings pools
      no_schedules no_claims taken_state cases_0 (pos 7) made taken_run

abbrev next_state : Worker redis store
next_state = fetch redis store second ended_state

next_run : Run next_state
next_run = later ended_run (
    fetches second ended_pending
      (subst (λ xs. Follows xs (pos 8)) (sym ended_fetched) (omega arith)) (omega arith))

next_fetched : elem (pos 7) (offsets_at cases_0 next_state.fetched) ≡ true
unfolding end_job take fetch starting queued_world offsets_at
next_fetched = refl

committed :
    record_for cases_0 (Offsets.flush_all next_state.world.offsets).1
    ≡ some (record { key = cases_0; offset = pos 7; leader_epoch = pos 3 })
unfolding end_job take fetch starting queued_world record_for run_job complete_message track_record
    Offsets.flush_all Offsets.collect Offsets.track Offsets.put insert Offsets.state lookup
    Offsets.complete wakes_drain mark_complete track_state committable_offset settle advance
    contains sub64 bump delete add64 wrap64 process_with_fallback route execute redis_store memory
    process finish is_retriable as_invalid_envelope as_business_validation should_retry
    RetryPublisher.publish RetryPublisher.publish_after RetryPublisher.backoff marshal_retry
committed = refl

commits_are_settled_example :
    (elem (pos 7) (offsets_at cases_0 next_state.fetched) ≡ true)
    × (outstanding redis store cases_0 (pos 7) next_state ≡ 0)
commits_are_settled_example =
    commits_are_settled redis store (pos 5) (pos 30000000000) background processors settings pools
      no_schedules no_claims next_state cases_0 _ (pos 7) (pos 7) made next_run committed
      next_fetched (omega arith) (omega arith)

queued_fetched : offsets_at cases_0 queued_state.fetched ≡ pos 7 ∷ []
unfolding fetch starting offsets_at
queued_fetched = refl

queued_fit : unfit_jobs queued_state ≡ 0
unfolding unfit_jobs queued_world count_unfit in_pools in_pool total insert starting fetch
queued_fit = refl

shutdown_commits_example :
    (t : Worker redis store) × Drained redis store
      (pos 5)
      (pos 30000000000)
      background
      processors
      queued_state
      t
    × Asked cases_0
        (pos 7)
        (lookup cases_0 t.world.offsets.partitions)
        (record_for cases_0 (Offsets.flush_all t.world.offsets).1)
shutdown_commits_example =
    shutdown_commits redis store (pos 5) (pos 30000000000) background processors settings pools
      no_schedules no_claims queued_state cases_0 (pos 7) [] made queued_run refl queued_fit
      queued_fetched (dense_from (offsets_at cases_0 queued_state.fetched) queued_fetched)
