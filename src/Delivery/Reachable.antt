-- ===== src/Delivery/Reachable.antt =====
-- The worker from its start on: the ledger holds after any steps of its goroutines.
use raider_worker.Event.Affinity.{affinity_key}
use raider_worker.Delivery.Moves.{
  outstanding-completed, outstanding-queued, outstanding-take, outstanding-end,
}
use raider_worker.Event.Types.{Processor, Context}
use raider_worker.Registry.{VersionKey}
use raider_worker.Time.{TimeText, Duration}
use raider_worker.Idempotency.{Store}
use raider_worker.Consumer.Pools.{new_pools}
use raider_worker.Retry.ScheduleRedis.{ScheduleRedis}
use raider_worker.WorkerPool.Order.{length-make_lanes, at_least_one-pos}
use raider_worker.Config.Load.{WorkerConfig}
use mathlib.Core.Option.{some-injective}
use raider_worker.Base.{
  Text, Bool-cases, Map, [], arith, bool_eq, inl, inr, int_eq, length, list_eq, lookup, nat_eq,
  none, refl, some, subst, suc, sym, unit_eq, zero, ℕ, ℤ, ◌<◌, ◌==◌, ◌∷◌, ◌≡◌, ◌++◌, IsKeyed,
  contains,
}
use raider_worker.Delivery.Worker.{Worker, starting, take, end_job, offsets_at}
use raider_worker.Delivery.Interleaving.{
  stops, Step, Reach, fetches, dispatches, takes, ends, flushes, schedules, here, later,
  flushes_one, loses, revokes,
}
use raider_worker.Delivery.Totals.{in_pool, in_lane, in_pool-submit, in_pool-receive}
use raider_worker.Base.{total}
use raider_worker.Delivery.Outstanding.{in_pools, outstanding, HasLanes, hit_work}
use raider_worker.Delivery.Invariant.{
  Holds, fetch-Holds, complete-Holds, move-Holds, flush-Holds, revoke-Holds, close_lanes-Holds,
  flush_one-Holds, lose-Holds,
}
use raider_worker.Consumer.Dispatch.{Work}
use raider_worker.Consumer.Outcomes.{Completed, work_of}
use raider_worker.Consumer.Settlement.{dispatch_ends}
use raider_worker.Consumer.Job.{returned_job}
use raider_worker.Consumer.Topics.{IsMade, new_pools-IsBuilt}
use raider_worker.WorkerPool.Pool as WorkerPool
use raider_worker.WorkerPool.Pool.{Pool, Job, make_lanes, at_least_one}

in_pool-make_lanes : (f : Work → ℕ) (n b : ℕ) → total (in_lane f) (make_lanes n b) ≡ 0
unfolding total make_lanes
in_pool-make_lanes f zero b = refl
in_pool-make_lanes f (suc n) b = omega (arith, in_pool-make_lanes f n b)

in_pool-new :
    (f : Work → ℕ) (lane_count buffer : ℤ) → in_pool f (WorkerPool.new lane_count buffer) ≡ 0
unfolding in_pool WorkerPool.new
in_pool-new f lane_count buffer =
    in_pool-make_lanes f (at_least_one lane_count) (at_least_one buffer)

some_lane : (lane_count buffer : ℤ) → 0 < length (WorkerPool.new {A = Work} lane_count buffer).lanes
unfolding WorkerPool.new
some_lane lane_count buffer = omega (
  arith,
  length-make_lanes Work (at_least_one lane_count) (at_least_one buffer),
  at_least_one-pos lane_count,
)

-- A pool that has just been made.
unfoldable pub IsNew : Pool Work → Type 0
IsNew p = (0 < length p.lanes) × ((f : Work → ℕ) → in_pool f p ≡ 0)

IsMade-IsNew : {lane_count : ℤ} {p : Pool Work} → IsMade lane_count p → IsNew p
unfolding IsNew
IsMade-IsNew {lane_count} m =
    rw m.same (some_lane lane_count m.buffer, λ f. in_pool-new f lane_count m.buffer)

unfoldable pub AllNew : Map Text (Pool Work) → Type 0
AllNew [] = Unit
AllNew ((t, p) ∷ pools) = IsNew p × AllNew pools

AllNew-HasLanes : (pools : Map Text (Pool Work)) → AllNew pools → HasLanes pools
unfolding AllNew IsNew lookup
AllNew-HasLanes [] h t p e = absurd (cc)
AllNew-HasLanes ((u, q) ∷ pools) h t p e = elim (Bool-cases (u == t)) [
  | inl same ↦ let is : q ≡ p = some-injective _ _ (rw same at e) in rw (← is) (h.0.0)
  | inr other ↦ AllNew-HasLanes pools h.1 t p (rw other at e)
]

AllNew-in_pools :
    (f : Work → ℕ) (pools : Map Text (Pool Work)) → AllNew pools → in_pools f pools ≡ 0
unfolding AllNew IsNew in_pools
AllNew-in_pools f [] h = refl
AllNew-in_pools f ((t, p) ∷ pools) h = omega (arith, h.0.1 f, AllNew-in_pools f pools h.1)

pub new_pools-AllNew :
    (w : WorkerConfig) (pools : Map Text (Pool Work)) → new_pools w ≡ some pools → AllNew pools
unfolding AllNew
new_pools-AllNew w pools h =
    let b = new_pools-IsBuilt w pools h in
    rw b.same (
      IsMade-IsNew b.cases_made,
      (
        IsMade-IsNew b.payments_made,
        (IsMade-IsNew b.visits_made, (IsMade-IsNew b.notifications_made, tt)),
      ),
    )

new_pools-IsKeyed :
    (w : WorkerConfig) (pools : Map Text (Pool Work)) → new_pools w ≡ some pools → IsKeyed pools
unfolding contains lookup
new_pools-IsKeyed w pools h =
    rw ((new_pools-IsBuilt w pools h).same) (refl, (refl, (refl, (refl, tt))))

module _ (redis : ScheduleRedis) (store : Store) where
  pub starting-Holds :
      (w : WorkerConfig) (pools : Map Text (Pool Work)) (sched : redis.State) (claims : store.State)
      → new_pools w ≡ some pools
      → Holds redis store (starting redis store pools sched claims)
  unfolding starting outstanding offsets_at lookup total
  starting-Holds w pools sched claims h =
      let fresh = new_pools-AllNew w pools h in
      record {
        lanes = AllNew-HasLanes pools fresh;
        topics = new_pools-IsKeyed w pools h;
        keyed = tt;
        entries = λ k. inl (record {
          no_state = refl;
          nothing = refl;
          no_copy = λ o. omega (arith, AllNew-in_pools (hit_work k o) pools fresh);
        });
      }

  module _ ⦃times : TimeText⦄ (max_retries : ℤ) (timeout : Duration) (ctx : Context)
      (processors : Map VersionKey Processor) where
    Step-Holds :
        {s t : Worker redis store}
        → Holds redis store s
        → Step redis store max_retries timeout ctx processors s t
        → Holds redis store t
    unfolding outstanding
    Step-Holds {s} h (fetches f idle follows fits) = fetch-Holds redis store s f h idle follows fits
    Step-Holds {s} h (dispatches now raw w p d) =
        let completed : Completed redis raw s.world w
            → Holds redis store (record s { world = w; pending = none }) =
          λ c.
            complete-Holds redis store s (record s { world = w; pending = none }) raw h c.offsets
              c.pools refl (λ k o. outstanding-completed redis store k o s raw w p c.pools) in
        elim (dispatch_ends redis processors now raw s.world w d) [
          | inl dead ↦ completed dead.completed
          | inr (inl scheduled) ↦ completed scheduled.completed
          | inr (inr q) ↦
              subst (λ v. Holds redis store (record s { world = v; pending = none })) (sym q.same)
                (move-Holds redis store s _ raw.topic q.pool q.pool' h q.found
                  (in_pool-submit (λ _. 0) (affinity_key q.e) (work_of raw q.e q.processor) q.pool
                    q.pool' (h.lanes raw.topic q.pool q.found) q.submits).1
                  refl refl refl
                  (λ k o.
                    outstanding-queued redis store k o s raw q.pool q.pool' (affinity_key q.e)
                      (work_of raw q.e q.processor) p refl h.lanes q.found q.submits))
        ]
    Step-Holds {s} h (takes topic i pool pool' job found r) =
        move-Holds redis store s (take redis store topic pool' job.execute s) topic pool pool' h
          found (in_pool-receive (λ _. 0) i pool pool' job r).1 (unfold take in refl)
          (unfold take in refl) (unfold take in refl)
          (λ k o. outstanding-take redis store k o s topic i pool pool' job found r)
    Step-Holds {s} h (ends now before after work end r returned) =
        let others = before ++ after in
        let t = end_job redis store end others s in
        let effects =
          returned_job redis store max_retries timeout ctx work now s.world s.claims end returned in
        let same : t ≡ record s { world = end.world; claims = end.claims; running = others } =
          unfold end_job in refl in
        subst (Holds redis store) (sym same) (
          complete-Holds redis store s
            (record s { world = end.world; claims = end.claims; running = others }) work.source h
            effects.0 effects.1 refl
            (λ k o.
              outstanding-end redis store k o s before after work end.world end.claims r effects.1))
    Step-Holds h flushes = flush-Holds redis store _ h
    Step-Holds {s} h (flushes_one k st found) = flush_one-Holds redis store k st s h found
    Step-Holds {s} h (loses k idle) = lose-Holds redis store k s h idle
    Step-Holds {s} h stops = close_lanes-Holds redis store s h
    Step-Holds {s} h (revokes k idle) = revoke-Holds redis store k s h idle
    Step-Holds h (schedules st published) = record {
      lanes = h.lanes;
      topics = h.topics;
      keyed = h.keyed;
      entries = h.entries;
    }

    pub Reach-Holds :
        {s t : Worker redis store}
        → Holds redis store s
        → Reach redis store max_retries timeout ctx processors s t
        → Holds redis store t
    Reach-Holds h here = h
    Reach-Holds h (later r s) = Step-Holds (Reach-Holds h r) s
