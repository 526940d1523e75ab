-- ===== src/Delivery/Invariant.antt =====
-- The ledger of all partitions, kept by every step of the worker.
use raider_worker.Consumer.Rebalance.{on_partitions_lost}
use raider_worker.OffsetManager.Partition.{PartitionState, committable_offset}
use raider_worker.Delivery.Revoked.{revoke-IsKeyed, lookup-revoke, offsets_at-without}
use raider_worker.Delivery.Moves.{outstanding-fetch}
use raider_worker.Delivery.Entries.{flush-Entry}
use raider_worker.Delivery.Calls.{complete_at, track_at}
use raider_worker.Delivery.Ledger.{Entry-same, Entry}
use raider_worker.OffsetManager.Keyed.{flush_all-IsKeyed, complete-IsKeyed, track-IsKeyed}
use raider_worker.Event.Types.{RawMessage}
use raider_worker.OffsetManager.Manager.{PartitionKey, key_eq}
use raider_worker.Consumer.Polling.{track_record, Fetched}
use raider_worker.Idempotency.{Store}
use raider_worker.Retry.ScheduleRedis.{ScheduleRedis}
use raider_worker.Base.{
  Text, IsKeyed, bool_eq, insert, int_eq, length, list_eq, lookup, max_int64, nat_eq, none, refl,
  some, sym, unit_eq, ℤ, ◌+◌, ◌<ℤ◌, ◌≡◌, Bool-cases, [], eq_of_==, if◌then◌else◌, inl, inr, subst,
  ◌==◌, insert-IsKeyed, arith, delete-IsKeyed, lookup-delete, lookup-insert,
}
use raider_worker.OffsetManager.Manager as Offsets
use raider_worker.Delivery.Worker.{
  Worker, Follows, offsets_at, fetch, flush, revoke, close_lanes, lose, flush_one,
}
use raider_worker.Delivery.Outstanding.{
  hit, outstanding, HasLanes, insert-HasLanes, stop_pools-HasLanes, stop_pools-IsKeyed,
  in_pools-stop_pools, hit_work,
}
use raider_worker.Consumer.Dispatch.{Work, place}
use raider_worker.WorkerPool.Pool.{Pool}
use raider_worker.OffsetManager.FlushAll.{flush_all_exact}

module _ (redis : ScheduleRedis) (store : Store) where
  -- What holds of the worker between its steps.
  pub record Holds (s : Worker redis store) : Type 0 where
    pub lanes : HasLanes s.world.pools
    pub topics : IsKeyed s.world.pools
    pub keyed : IsKeyed s.world.offsets.partitions
    pub entries :
        (k : PartitionKey)
        → Entry
            (lookup k s.world.offsets.partitions)
            (offsets_at k s.fetched)
            (λ o. outstanding redis store k o s)

  pub fetch-Holds :
      (s : Worker redis store) (f : Fetched)
      → Holds s
      → s.pending ≡ none
      → Follows (offsets_at (place f.raw) s.fetched) f.raw.offset
      → f.raw.offset <ℤ max_int64
      → Holds (fetch redis store f s)
  unfolding fetch track_record
  fetch-Holds s f h idle follows fits = record {
    lanes = h.lanes;
    topics = h.topics;
    keyed = track-IsKeyed (place f.raw) f.raw.offset f.leader_epoch s.world.offsets h.keyed;
    entries = λ k.
        Entry-same _ _ (λ o. outstanding-fetch redis store k o f s idle)
          (track_at s.world.offsets f.raw k s.fetched f.leader_epoch _ follows fits (h.entries k));
  }

  -- A record is completed, and the worker holds one copy less of it.
  pub complete-Holds :
      (s t : Worker redis store) (raw : RawMessage)
      → Holds s
      → t.world.offsets ≡ Offsets.complete (place raw) raw.offset s.world.offsets
      → t.world.pools ≡ s.world.pools
      → t.fetched ≡ s.fetched
      → ((k : PartitionKey) (o : ℤ)
          → outstanding redis store k o s ≡ hit k o raw + outstanding redis store k o t)
      → Holds t
  unfolding outstanding
  complete-Holds s t raw h offsets pools fetched copies = record {
    lanes = rw pools h.lanes;
    topics = rw pools h.topics;
    keyed = rw offsets (complete-IsKeyed (place raw) raw.offset s.world.offsets h.keyed);
    entries = λ k.
        rw (offsets, fetched)
          (complete_at s.world.offsets raw k (offsets_at k s.fetched) _
            (Entry-same _ _ (λ o. sym (copies k o)) (h.entries k)));
  }

  -- A record changes hands in the pools.
  pub move-Holds :
      (s t : Worker redis store) (topic : Text) (pool pool' : Pool Work)
      → Holds s
      → lookup topic s.world.pools ≡ some pool
      → length pool'.lanes ≡ length pool.lanes
      → t.world.offsets ≡ s.world.offsets
      → t.world.pools ≡ insert topic pool' s.world.pools
      → t.fetched ≡ s.fetched
      → ((k : PartitionKey) (o : ℤ) → outstanding redis store k o s ≡ outstanding redis store k o t)
      → Holds t
  unfolding outstanding
  move-Holds s t topic pool pool' h found same offsets pools fetched copies = record {
    lanes = rw pools (insert-HasLanes topic pool pool' s.world.pools h.lanes found same);
    topics = rw pools (insert-IsKeyed topic pool' s.world.pools h.topics);
    keyed = rw offsets h.keyed;
    entries = λ k. rw (offsets, fetched) (Entry-same _ _ (λ o. sym (copies k o)) (h.entries k));
  }

  pub flush-Holds : (s : Worker redis store) → Holds s → Holds (flush redis store s)
  unfolding flush outstanding
  flush-Holds s h = record {
    lanes = h.lanes;
    topics = h.topics;
    keyed = flush_all-IsKeyed s.world.offsets h.keyed;
    entries = λ k.
        rw ((flush_all_exact s.world.offsets k h.keyed).0)
          (Entry-same _ _ (λ o. refl) (flush-Entry (h.entries k)));
  }

  revoked-Entry :
      (k j : PartitionKey) (s : Worker redis store)
      → Holds s
      → ((o : ℤ) → outstanding redis store k o s ≡ 0)
      → Entry
          (if k == j then none else lookup j s.world.offsets.partitions)
          (if k == j then [] else offsets_at j s.fetched)
          (λ o. outstanding redis store j o s)
  revoked-Entry k j s h idle = elim (Bool-cases (k == j)) [
    | inl gone ↦
        let same = eq_of_== k j gone in
        rw gone (
          inl (record {
            no_state = refl;
            nothing = refl;
            no_copy = λ o. subst (λ i. outstanding redis store i o s ≡ 0) same (idle o);
          }))
    | inr apart ↦ rw apart (h.entries j)
  ]

  pub revoke-Holds :
      (k : PartitionKey) (s : Worker redis store)
      → Holds s
      → ((o : ℤ) → outstanding redis store k o s ≡ 0)
      → Holds (revoke redis store k s)
  unfolding revoke outstanding
  revoke-Holds k s h idle = record {
    lanes = h.lanes;
    topics = h.topics;
    keyed = revoke-IsKeyed k s.world.offsets h.keyed;
    entries = λ j.
        rw (lookup-revoke k j s.world.offsets, offsets_at-without k j s.fetched)
          (revoked-Entry k j s h idle);
  }

  flushed-Entry :
      (k j : PartitionKey) (st : PartitionState) (s : Worker redis store)
      → Holds s
      → lookup k s.world.offsets.partitions ≡ some st
      → Entry
          (if k == j then some (committable_offset st).0 else lookup j s.world.offsets.partitions)
          (offsets_at j s.fetched)
          (λ o. outstanding redis store j o s)
  flushed-Entry k j st s h found = elim (Bool-cases (k == j)) [
    | inl here ↦ rw here (
        subst
          (λ i.
            Entry (some (committable_offset st).0) (offsets_at i s.fetched)
              (λ o. outstanding redis store i o s))
          (eq_of_== k j here) (rw found at (flush-Entry (h.entries k))))
    | inr apart ↦ rw apart (h.entries j)
  ]

  pub flush_one-Holds :
      (k : PartitionKey) (st : PartitionState) (s : Worker redis store)
      → Holds s
      → lookup k s.world.offsets.partitions ≡ some st
      → Holds (flush_one redis store k st s)
  unfolding flush_one Offsets.put outstanding
  flush_one-Holds k st s h found = record {
    lanes = h.lanes;
    topics = h.topics;
    keyed = insert-IsKeyed k _ s.world.offsets.partitions h.keyed;
    entries = λ j.
        rw (lookup-insert k j (committable_offset st).0 s.world.offsets.partitions)
          (flushed-Entry k j st s h found);
  }

  pub lose-Holds :
      (k : PartitionKey) (s : Worker redis store)
      → Holds s
      → ((o : ℤ) → outstanding redis store k o s ≡ 0)
      → Holds (lose redis store k s)
  unfolding lose on_partitions_lost Offsets.forget outstanding
  lose-Holds k s h idle = record {
    lanes = h.lanes;
    topics = h.topics;
    keyed = delete-IsKeyed k s.world.offsets.partitions h.keyed;
    entries = λ j.
        rw (lookup-delete k j s.world.offsets.partitions, offsets_at-without k j s.fetched)
          (revoked-Entry k j s h idle);
  }

  pub close_lanes-Holds : (s : Worker redis store) → Holds s → Holds (close_lanes redis store s)
  unfolding close_lanes outstanding
  close_lanes-Holds s h = record {
    lanes = stop_pools-HasLanes s.world.pools h.lanes;
    topics = stop_pools-IsKeyed s.world.pools h.topics;
    keyed = h.keyed;
    entries = λ k.
        Entry-same _ _ (λ o. omega (arith, in_pools-stop_pools (hit_work k o) s.world.pools))
          (h.entries k);
  }
