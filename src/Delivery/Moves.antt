-- ===== src/Delivery/Moves.antt =====
-- What each step does to the copies of a record that the worker holds.
use raider_worker.WorkerPool.Pool.{Pool, Job, submit, receive, sent}
use raider_worker.Delivery.Totals.{in_pool-receive, in_pool-submit}
use raider_worker.Base.{total, total-append}
use raider_worker.Consumer.Polling.{track_record, Fetched}
use raider_worker.Event.Types.{RawMessage}
use raider_worker.OffsetManager.Manager.{PartitionKey}
use raider_worker.Idempotency.{Store}
use raider_worker.Retry.ScheduleRedis.{ScheduleRedis}
use raider_worker.Base.{
  Text, List, arith, bool_eq, insert, int_eq, list_eq, lookup, nat_eq, none, some, unit_eq, ℕ, ℤ,
  ◌++◌, ◌+◌, ◌∷◌, ◌≡◌,
}
use raider_worker.Delivery.Worker.{Worker, fetch, take}
use raider_worker.Delivery.Outstanding.{in_pools-insert, hit, hit_work, HasLanes, outstanding}
use raider_worker.Consumer.Dispatch.{World, Work}

module _ (redis : ScheduleRedis) (store : Store) (k : PartitionKey) (o : ℤ) where
  pub outstanding-fetch :
      (f : Fetched) (s : Worker redis store)
      → s.pending ≡ none
      → outstanding redis store k o (fetch redis store f s)
        ≡ hit k o f.raw + outstanding redis store k o s
  unfolding outstanding fetch track_record
  outstanding-fetch f s idle = rw idle (omega arith)

  pub outstanding-completed :
      (s : Worker redis store) (raw : RawMessage) (w : World redis)
      → s.pending ≡ some raw
      → w.pools ≡ s.world.pools
      → outstanding redis store k o s
        ≡ hit k o raw + outstanding redis store k o (record s { world = w; pending = none })
  unfolding outstanding
  outstanding-completed s raw w p same = rw (p, same) (omega arith)

  pub outstanding-queued :
      (s : Worker redis store) (raw : RawMessage) (pool pool' : Pool Work) (key : Text)
      (work : Work)
      → s.pending ≡ some raw
      → work.source ≡ raw
      → HasLanes s.world.pools
      → lookup raw.topic s.world.pools ≡ some pool
      → submit key work pool ≡ sent pool'
      → outstanding redis store k o s
        ≡ outstanding redis store k o (record s {
          world = record s.world { pools = insert raw.topic pool' s.world.pools };
          pending = none;
        })
  unfolding outstanding
  outstanding-queued s raw pool pool' key work p source h found sends =
      let grown =
        (in_pool-submit (hit_work k o) key work pool pool' (h raw.topic pool found) sends).0 in
      rw (p, ← source)
        (omega (
          arith,
          grown,
          in_pools-insert (hit_work k o) work.source.topic pool pool' s.world.pools
              (rw source found),
        ))

  pub outstanding-take :
      (s : Worker redis store) (topic : Text) (i : ℕ) (pool pool' : Pool Work) (job : Job Work)
      → lookup topic s.world.pools ≡ some pool
      → receive i pool ≡ some (job, pool')
      → outstanding redis store k o s
        ≡ outstanding redis store k o (take redis store topic pool' job.execute s)
  unfolding outstanding take total
  outstanding-take s topic i pool pool' job found r = omega (
    arith,
    (in_pool-receive (hit_work k o) i pool pool' job r).0,
    in_pools-insert (hit_work k o) topic pool pool' s.world.pools found,
  )

  pub outstanding-end :
      (s : Worker redis store) (before after : List Work) (work : Work) (w : World redis)
      (claims : store.State)
      → s.running ≡ before ++ work ∷ after
      → w.pools ≡ s.world.pools
      → outstanding redis store k o s
        ≡ hit k o work.source
          + outstanding redis store k o
              (record s { world = w; claims = claims; running = before ++ after })
  unfolding outstanding total
  outstanding-end s before after work w claims runs same =
      rw (runs, same)
        (omega (
          arith,
          total-append (hit_work k o) before (work ∷ after),
          total-append (hit_work k o) before after,
        ))
