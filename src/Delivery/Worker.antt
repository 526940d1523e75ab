-- ===== src/Delivery/Worker.antt =====
-- What the goroutines that cmd/worker/main.go starts share, and what each of their steps does to it.
use raider_worker.OffsetManager.Partition.{PartitionState, committable_offset}
use raider_worker.Consumer.Pools.{stop_pools}
use raider_worker.Consumer.Rebalance.{revoke_partition, on_partitions_lost}
use raider_worker.Consumer.Job.{JobEnd}
use raider_worker.WorkerPool.Pool.{Pool}
use raider_worker.Idempotency.{Store}
use raider_worker.Event.Types.{RawMessage}
use raider_worker.OffsetManager.Manager.{PartitionKey, key_eq}
use raider_worker.Retry.ScheduleRedis.{ScheduleRedis}
use raider_worker.Base.{
  Text, List, Map, Option, [], bool_eq, if◌then◌else◌, insert, int_eq, list_eq, nat_eq, none, pos,
  some, unit_eq, ℤ, ◌<ℤ◌, ◌==◌, ◌∷◌, ◌≤ℤ◌,
}
use raider_worker.Consumer.Polling.{Fetched, track_record}
use raider_worker.Consumer.Dispatch.{World, Work, place}
use raider_worker.OffsetManager.Manager as Offsets

-- The offsets of a partition among the records that were fetched, the newest first.
unfoldable pub offsets_at : PartitionKey → List RawMessage → List ℤ
offsets_at k [] = []
offsets_at k (r ∷ rs) = let rest = offsets_at k rs in if place r == k then r.offset ∷ rest else rest

-- The records of the other partitions.
unfoldable pub without : PartitionKey → List RawMessage → List RawMessage
without k [] = []
without k (r ∷ rs) = let rest = without k rs in if place r == k then rest else r ∷ rest

-- Kafka delivers a partition's records by increasing offsets, which are not negative.
abbrev pub Follows : List ℤ → ℤ → Type 0
Follows [] o = pos 0 ≤ℤ o
Follows (n ∷ ns) o = n <ℤ o

module _ (redis : ScheduleRedis) (store : Store) where
  -- `pending` is the record that the poll loop has tracked and not dispatched, `running` are the
  -- jobs that lanes have taken and not ended, `fetched` all records so far, the newest first.
  pub record Worker : Type 0 where
    pub world : World redis
    pub claims : store.State
    pub pending : Option RawMessage
    pub running : List Work
    pub fetched : List RawMessage

  -- The function of `EachRecord` up to its dispatch.
  unfoldable pub fetch : Fetched → Worker → Worker
  fetch f s = record s {
    world = track_record redis f s.world;
    pending = some f.raw;
    fetched = f.raw ∷ s.fetched;
  }

  -- A lane of the topic's pool starts a job.
  unfoldable pub take : Text → Pool Work → Work → Worker → Worker
  take topic pool' work s = record s {
    world = record s.world { pools = insert topic pool' s.world.pools };
    running = work ∷ s.running;
  }

  -- `FlushAll` of the offset manager's loop.
  unfoldable pub flush : Worker → Worker
  flush s = record s { world = record s.world { offsets = (Offsets.flush_all s.world.offsets).0 } }

  -- `OnPartitionsRevoked` for a partition whose records are all done, so that the drain does not wait;
  -- `fetched` starts anew, for the offsets that the partition has when it comes back.
  unfoldable pub revoke : PartitionKey → Worker → Worker
  revoke k s = record s {
    world = record s.world { offsets = (revoke_partition [] k s.world.offsets).0 };
    fetched = without k s.fetched;
  }

  -- One round of the loop of `FlushAll`, which locks each partition by itself: it finds the state
  -- `st` at the partition.
  unfoldable pub flush_one : PartitionKey → PartitionState → Worker → Worker
  flush_one k st s = record s {
    world = record s.world { offsets = Offsets.put k (committable_offset st).0 s.world.offsets };
  }

  -- `OnPartitionsLost` for a partition whose records are all done.
  unfoldable pub lose : PartitionKey → Worker → Worker
  lose k s = record s {
    world = record s.world { offsets = on_partitions_lost (k ∷ []) s.world.offsets };
    fetched = without k s.fetched;
  }

  -- `Stop` of the consumer, before it waits for the lanes.
  unfoldable pub close_lanes : Worker → Worker
  close_lanes s = record s { world = record s.world { pools = stop_pools s.world.pools } }

  -- The worker at its start.
  unfoldable pub starting : Map Text (Pool Work) → redis.State → store.State → Worker
  starting pools schedules claims = record {
    world = record { offsets = Offsets.new; pools = pools; schedules = schedules; published = [] };
    claims = claims;
    pending = none;
    running = [];
    fetched = [];
  }

  -- A lane ends one of the jobs that run, which has returned.
  unfoldable pub end_job : JobEnd redis store.State → List Work → Worker → Worker
  end_job end others s = record s { world = end.world; claims = end.claims; running = others }
