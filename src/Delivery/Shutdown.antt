-- ===== src/Delivery/Shutdown.antt =====
-- The end of cmd/worker/main.go: the lanes are drained, then a last flush commits.
use raider_worker.OffsetManager.Manager as Offsets
use raider_worker.OffsetManager.FlushAll.{record_for}
use raider_worker.Delivery.Queued.{in_pools-none}
use raider_worker.Consumer.Pools.{new_pools}
use raider_worker.WorkerPool.Pool.{Pool}
use raider_worker.OffsetManager.Manager.{PartitionKey, key_eq}
use raider_worker.Config.Load.{WorkerConfig}
use raider_worker.Registry.{VersionKey}
use raider_worker.Event.Types.{Context, Processor}
use raider_worker.Time.{TimeText, Duration}
use raider_worker.Idempotency.{Store}
use raider_worker.Retry.ScheduleRedis.{ScheduleRedis}
use raider_worker.Base.{
  Text, List, Map, ap, arith, bool_eq, elem, int_eq, list_eq, lookup, nat_eq, none, some, true,
  unit_eq, ℤ, ◌∙◌, ◌∷◌, ◌≡◌, ◌≤ℤ◌, subst, sym,
}
use raider_worker.Delivery.Worker.{Worker, starting, offsets_at}
use raider_worker.Delivery.Interleaving.{Reach}
use raider_worker.Base.{total}
use raider_worker.Delivery.Outstanding.{outstanding, hit_work, hit_pending}
use raider_worker.Delivery.Draining.{Drained, Reach-trans, drains, unfit_jobs}
use raider_worker.Delivery.Commits.{worker-Holds, idle_partition-Asked, Asked}
use raider_worker.Consumer.Dispatch.{Work}

module _ (redis : ScheduleRedis) (store : Store) ⦃times : TimeText⦄ (max_retries : ℤ)
    (timeout : Duration) (ctx : Context) (processors : Map VersionKey Processor) where
  Drained-outstanding :
      {s t : Worker redis store}
      → Drained redis store max_retries timeout ctx processors s t
      → s.pending ≡ none
      → (k : PartitionKey) (o : ℤ) → outstanding redis store k o t ≡ 0
  unfolding outstanding total
  Drained-outstanding {s} {t} d idle k o =
      let pending = d.same_pending ∙ idle in
      omega (
        arith,
        ap (hit_pending k o) pending,
        in_pools-none (hit_work k o) t.world.pools d.no_job,
        ap (total (hit_work k o)) d.no_run,
      )

  module _ (w : WorkerConfig) (pools : Map Text (Pool Work)) (sched : redis.State)
      (claims : store.State) where
    pub shutdown_commits :
        (s : Worker redis store) (k : PartitionKey) (n : ℤ) (older : List ℤ)
        → new_pools w ≡ some pools
        → Reach redis store max_retries timeout ctx processors
            (starting redis store pools sched claims)
            s
        → s.pending ≡ none
        → unfit_jobs s ≡ 0
        → offsets_at k s.fetched ≡ n ∷ older
        → ((a o : ℤ)
            → elem a (offsets_at k s.fetched) ≡ true
            → a ≤ℤ o
            → o ≤ℤ n
            → elem o (offsets_at k s.fetched) ≡ true)
        → (t : Worker redis store) × Drained redis store max_retries timeout ctx processors s t
          × Asked k n
              (lookup k t.world.offsets.partitions)
              (record_for k (Offsets.flush_all t.world.offsets).1)
    shutdown_commits s k n older built reach idle fit newest dense =
        let holds =
          worker-Holds redis store max_retries timeout ctx processors w pools sched claims s built
            reach in
        let (t, d) = drains redis store max_retries timeout ctx processors s holds fit in
        (
          t,
          d,
          idle_partition-Asked redis store max_retries timeout ctx processors w pools sched claims t
              k n older built
              (Reach-trans redis store max_retries timeout ctx processors reach d.reach)
              (Drained-outstanding d idle k) (ap (offsets_at k) d.same_fetched ∙ newest)
              (subst
                (λ fetched.
                  (a o : ℤ)
                  → elem a (offsets_at k fetched) ≡ true
                  → a ≤ℤ o
                  → o ≤ℤ n
                  → elem o (offsets_at k fetched) ≡ true)
                (sym d.same_fetched) dense),
        )
