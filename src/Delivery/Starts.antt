-- ===== src/Delivery/Starts.antt =====
-- The worker from its start on: a lane starts the records of a partition by increasing offsets.
use raider_worker.Consumer.Job.{returned_job}
use raider_worker.Consumer.Pools.{new_pools}
use raider_worker.Config.Load.{WorkerConfig}
use raider_worker.Event.Affinity.{affinity_key}
use raider_worker.Consumer.Outcomes.{work_of}
use raider_worker.Consumer.Settlement.{dispatch_ends}
use mathlib.Core.Option.{some-injective}
use raider_worker.Base.{◌<ℤ◌}
use raider_worker.WorkerPool.Pool.{receive}
use raider_worker.Delivery.Worker.{take, starting, end_job, flush, close_lanes, flush_one, lose}
use raider_worker.Delivery.Interleaving.{
  Step, Reach, fetches, dispatches, takes, ends, flushes, schedules, flushes_one, loses, here,
  later, revokes, stops,
}
use raider_worker.Delivery.Invariant.{Holds}
use raider_worker.Registry.{VersionKey}
use raider_worker.OffsetManager.Manager.{PartitionKey}
use raider_worker.Event.Types.{Context, RawMessage, Processor}
use raider_worker.Consumer.Polling.{track_record, Fetched}
use raider_worker.Delivery.Outstanding.{outstanding, HasLanes}
use raider_worker.Delivery.Worker.{revoke, fetch, Worker, Follows, offsets_at}
use raider_worker.Time.{TimeText, Duration}
use raider_worker.Consumer.Dispatch.{Work, World, place}
use raider_worker.Idempotency.{Store}
use raider_worker.WorkerPool.Pool.{Job, Pool, receive, get_lane}
use raider_worker.Delivery.Totals.{in_pool, in_job}
use raider_worker.Base.{total}
use raider_worker.Retry.ScheduleRedis.{ScheduleRedis}
use raider_worker.Delivery.Reachable.{AllNew, IsNew, Reach-Holds, starting-Holds, new_pools-AllNew}
use raider_worker.Base.{
  Bool-cases, List, Map, Text, [], arith, bool_eq, inl, inr, int_eq, length, list_eq, lookup,
  nat_eq, none, refl, some, subst, sym, unit_eq, ℤ, ◌==◌, ◌∷◌, ◌≡◌, ℕ,
}
use raider_worker.Delivery.Line.{sources}
use raider_worker.Delivery.Lines.{
  Lines, InLine, Lines-map, InLine-fetch, InLine-dispatched, Lines-stop,
}
use raider_worker.Delivery.Unheld.{Lines-revoke, in_lane-le}
use raider_worker.Delivery.Behind.{behind_first}
use raider_worker.Delivery.Order.{Unstarted, queued-Lines, taken-Lines}

no_jobs : (jobs : List (Job Work)) → total (in_job (λ _. 1)) jobs ≡ 0 → jobs ≡ []
unfolding total
no_jobs [] h = refl
no_jobs (j ∷ js) h = absurd (omega arith)

new-Lines : (pools : Map Text (Pool Work)) → AllNew pools → Lines [] none pools
unfolding AllNew IsNew lookup sources in_pool
new-Lines [] h t p i e = absurd (cc)
new-Lines ((u, q) ∷ pools) h t p i e = elim (Bool-cases (u == t)) [
  | inl same ↦
      let is : q ≡ p = some-injective _ _ (rw same at e) in
      let empty =
        no_jobs (get_lane q.lanes i).jobs
          (omega (arith, in_lane-le (λ _. 1) q.lanes i, h.0.1 (λ _. 1))) in
      subst (λ v. InLine (length v.lanes) i [] none (get_lane v.lanes i).jobs) is
        (subst (InLine (length q.lanes) i [] none) (sym empty)
          (record { placed = tt; line = (tt, tt) }))
  | inr apart ↦ new-Lines pools h.1 t p i (rw apart at e)
]

module _ (redis : ScheduleRedis) (store : Store) where
  abbrev pub Ordered : Worker redis store → Type 0
  Ordered s = Lines s.fetched s.pending s.world.pools

  dispatched-Ordered :
      (s : Worker redis store) (raw : RawMessage) (w : World redis)
      → s.pending ≡ some raw
      → w.pools ≡ s.world.pools
      → Ordered s
      → Lines s.fetched none w.pools
  dispatched-Ordered s raw w p same h = rw same (
      Lines-map s.fetched s.fetched s.pending none s.world.pools
        (InLine-dispatched s.fetched s.pending) h)

  fetch-Ordered :
      (s : Worker redis store) (f : Fetched)
      → s.pending ≡ none
      → Follows (offsets_at (place f.raw) s.fetched) f.raw.offset
      → Ordered s
      → Ordered (fetch redis store f s)
  unfolding fetch track_record
  fetch-Ordered s f idle follows h =
      Lines-map s.fetched (f.raw ∷ s.fetched) none (some f.raw) s.world.pools
        (λ n i jobs. InLine-fetch s.fetched f.raw n i jobs follows)
        (subst (λ v. Lines s.fetched v s.world.pools) idle h)

  lose-Ordered :
      (k : PartitionKey) (s : Worker redis store)
      → ((o : ℤ) → outstanding redis store k o s ≡ 0)
      → Ordered s
      → Ordered (lose redis store k s)
  unfolding lose outstanding
  lose-Ordered k s idle h =
      Lines-revoke k s.fetched s.pending s.world.pools (λ o. omega (arith, idle o))
        (λ o. omega (arith, idle o)) h

  revoke-Ordered :
      (k : PartitionKey) (s : Worker redis store)
      → ((o : ℤ) → outstanding redis store k o s ≡ 0)
      → Ordered s
      → Ordered (revoke redis store k s)
  unfolding revoke outstanding
  revoke-Ordered k s idle h =
      Lines-revoke k s.fetched s.pending s.world.pools (λ o. omega (arith, idle o))
        (λ o. omega (arith, idle o)) h

  module _ ⦃times : TimeText⦄ (max_retries : ℤ) (timeout : Duration) (ctx : Context)
      (processors : Map VersionKey Processor) where
    Step-Ordered :
        {s t : Worker redis store}
        → HasLanes s.world.pools
        → Ordered s
        → Step redis store max_retries timeout ctx processors s t
        → Ordered t
    Step-Ordered {s} lanes h (fetches f idle follows fits) = fetch-Ordered s f idle follows h
    Step-Ordered {s} lanes h (dispatches now raw w p d) =
        elim (dispatch_ends redis processors now raw s.world w d) [
          | inl dead ↦ dispatched-Ordered s raw w p dead.completed.pools h
          | inr (inl scheduled) ↦ dispatched-Ordered s raw w p scheduled.completed.pools h
          | inr (inr q) ↦
              subst (λ v. Lines s.fetched none v.pools) (sym q.same)
                (queued-Lines s.fetched raw s.world.pools (affinity_key q.e)
                  (work_of raw q.e q.processor) q.pool q.pool' refl (lanes raw.topic q.pool q.found)
                  q.found q.submits (subst (λ v. Lines s.fetched v s.world.pools) p h))
        ]
    Step-Ordered {s} lanes h (takes topic i pool pool' job found r) =
        unfold take in
        taken-Lines s.fetched s.pending s.world.pools topic i pool pool' job found r h
    Step-Ordered {s} lanes h (ends now before after work end r returned) =
        let effects =
          returned_job redis store max_retries timeout ctx work now s.world s.claims end returned in
        unfold end_job in subst (Lines s.fetched s.pending) (sym effects.1) h
    Step-Ordered {s} lanes h flushes = unfold flush in h
    Step-Ordered {s} lanes h (revokes k idle) = revoke-Ordered k s idle h
    Step-Ordered {s} lanes h (flushes_one k st found) = unfold flush_one in h
    Step-Ordered {s} lanes h (loses k idle) = lose-Ordered k s idle h
    Step-Ordered {s} lanes h stops =
        unfold close_lanes in Lines-stop s.fetched s.pending s.world.pools h
    Step-Ordered lanes h (schedules st published) = h

    Reach-Ordered :
        {s t : Worker redis store}
        → Holds redis store s
        → Ordered s
        → Reach redis store max_retries timeout ctx processors s t
        → Ordered t
    Reach-Ordered holds h here = h
    Reach-Ordered holds h (later r s) =
        Step-Ordered (Reach-Holds redis store max_retries timeout ctx processors holds r).lanes
          (Reach-Ordered holds h r) s

module _ (redis : ScheduleRedis) (store : Store) ⦃times : TimeText⦄ (max_retries : ℤ)
    (timeout : Duration) (ctx : Context) (processors : Map VersionKey Processor) (w : WorkerConfig)
    (pools : Map Text (Pool Work)) (sched : redis.State) (claims : store.State) where
  starts-Ordered :
      (s : Worker redis store)
      → new_pools w ≡ some pools
      → Reach redis store max_retries timeout ctx processors
          (starting redis store pools sched claims)
          s
      → Ordered redis store s
  unfolding starting
  starts-Ordered s built r =
      Reach-Ordered redis store max_retries timeout ctx processors
        (starting-Holds redis store w pools sched claims built)
        (new-Lines pools (new_pools-AllNew w pools built)) r

  -- Events of one key are started in the order of their partition: whatever the poll loop, the
  -- lanes, the scheduler, the flush loop, `Stop` and revocations and losses of partitions without
  -- outstanding records have done, in any interleaving, when a lane takes a job, every record of its
  -- partition that is pending, or waits in any lane of the topic's pool under the same affinity key,
  -- is at a higher offset. A revocation or a loss that leaves records outstanding is not among the
  -- steps.
  pub starts_in_order :
      (s : Worker redis store) (topic : Text) (i : ℕ) (pool pool' : Pool Work) (job : Job Work)
      (raw : RawMessage)
      → new_pools w ≡ some pools
      → Reach redis store max_retries timeout ctx processors
          (starting redis store pools sched claims)
          s
      → lookup topic s.world.pools ≡ some pool
      → receive i pool ≡ some (job, pool')
      → Unstarted
          (take redis store topic pool' job.execute s).world.pools
          s.pending
          topic
          job.key
          raw
      → place job.execute.source ≡ place raw
      → job.execute.source.offset <ℤ raw.offset
  unfolding take
  starts_in_order s topic i pool pool' job raw built r found taken behind same =
      behind_first s.fetched s.pending s.world.pools topic i pool pool' job
        (starts-Ordered s built r) found taken raw behind same
