-- ===== src/Delivery/Interleaving.antt =====
-- The goroutines that cmd/worker/main.go starts, as one step relation.
use raider_worker.OffsetManager.Partition.{PartitionState}
use raider_worker.Consumer.Job.{JobEnd, run_job, job_returns}
use raider_worker.Kafka.{Publication}
use raider_worker.OffsetManager.Manager.{PartitionKey, key_eq}
use raider_worker.Consumer.Polling.{Fetched}
use raider_worker.Registry.{VersionKey}
use raider_worker.Event.Types.{Context, Processor, RawMessage}
use raider_worker.Time.{TimeText, Duration, Time}
use raider_worker.Idempotency.{Store}
use raider_worker.Retry.ScheduleRedis.{ScheduleRedis}
use raider_worker.Base.{
  Text, List, Map, bool_eq, int_eq, list_eq, lookup, max_int64, nat_eq, none, some, unit_eq, ℕ, ℤ,
  ◌++◌, ◌<ℤ◌, ◌∷◌, ◌≡◌,
}
use raider_worker.Delivery.Worker.{
  Worker, fetch, take, flush, revoke, close_lanes, end_job, Follows, offsets_at, flush_one, lose,
}
use raider_worker.Delivery.Outstanding.{outstanding}
use raider_worker.Consumer.Dispatch.{World, Work, dispatch, returns, place}
use raider_worker.WorkerPool.Pool.{Pool, Job, receive}

module _ (redis : ScheduleRedis) (store : Store) ⦃times : TimeText⦄ (max_retries : ℤ)
    (timeout : Duration) (ctx : Context) (processors : Map VersionKey Processor) where
  -- One step of one goroutine; the scheduler's may change the schedule and publish. A partition is
  -- revoked, or lost, when none of its records is outstanding. A job ends when it returns: one that panics
  -- ends the process, after which there is no step.
  pub data Step (s : Worker redis store) : Worker redis store → Type 0 where
    fetches :
        (f : Fetched)
        → s.pending ≡ none
        → Follows (offsets_at (place f.raw) s.fetched) f.raw.offset
        → f.raw.offset <ℤ max_int64
        → Step s (fetch redis store f s)
    dispatches :
        (now : Time) (raw : RawMessage) (w : World redis)
        → s.pending ≡ some raw
        → dispatch redis processors now raw s.world ≡ returns w
        → Step s (record s { world = w; pending = none })
    takes :
        (topic : Text) (i : ℕ) (pool pool' : Pool Work) (job : Job Work)
        → lookup topic s.world.pools ≡ some pool
        → receive i pool ≡ some (job, pool')
        → Step s (take redis store topic pool' job.execute s)
    ends :
        (now : Time) (before after : List Work) (work : Work) (end : JobEnd redis store.State)
        → s.running ≡ before ++ work ∷ after
        → run_job redis store max_retries timeout ctx work now s.world s.claims ≡ job_returns end
        → Step s (end_job redis store end (before ++ after) s)
    flushes : Step s (flush redis store s)
    revokes :
        (k : PartitionKey)
        → ((o : ℤ) → outstanding redis store k o s ≡ 0)
        → Step s (revoke redis store k s)
    flushes_one :
        (k : PartitionKey) (st : PartitionState)
        → lookup k s.world.offsets.partitions ≡ some st
        → Step s (flush_one redis store k st s)
    loses :
        (k : PartitionKey)
        → ((o : ℤ) → outstanding redis store k o s ≡ 0)
        → Step s (lose redis store k s)
    stops : Step s (close_lanes redis store s)
    schedules :
        (st : redis.State) (published : List Publication)
        → Step s (record s { world = record s.world { schedules = st; published = published } })

  pub data Reach (s : Worker redis store) : Worker redis store → Type 0 where
    here : Reach s s
    later : {t u : Worker redis store} → Reach s t → Step t u → Reach s u
