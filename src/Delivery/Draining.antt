-- ===== src/Delivery/Draining.antt =====
-- The lanes can always finish: what `Stop` waits for.
use raider_worker.Registry.{VersionKey}
use raider_worker.Event.Types.{Context, Processor}
use raider_worker.Time.{TimeText, Duration}
use raider_worker.Idempotency.{Store}
use raider_worker.Retry.ScheduleRedis.{ScheduleRedis}
use raider_worker.Base.{
  Bool-cases, List, Map, [], ap, arith, bool_eq, inl, inr, int_eq, list_eq, ltb, nat_eq, refl, suc,
  unit_eq, ℕ, ◌<◌, ◌∷◌, ◌≡◌, length, zero, ℤ, ◌+◌, ◌∙◌, ◌≤◌, ◌⊎◌, pos, if◌then◌else◌, leb_ℤ, ltb_ℤ,
  ◌&&◌, ◌<ℤ◌, ◌≤ℤ◌,
}
use raider_worker.Delivery.Worker.{Worker, take, end_job}
use raider_worker.Delivery.Interleaving.{Step, Reach, takes, ends, here, later}
use raider_worker.Delivery.Totals.{in_pool-receive}
use raider_worker.Base.{total}
use raider_worker.Delivery.Outstanding.{in_pools, in_pools-insert}
use raider_worker.Delivery.Invariant.{Holds}
use raider_worker.Delivery.Reachable.{Reach-Holds}
use raider_worker.Consumer.Dispatch.{Work}
use raider_worker.Consumer.Job.{job_returns_if, returned_job}
use raider_worker.Delivery.Queued.{one, receives, filled_pool}

works_cases :
    (works : List Work)
    → (works ≡ []) ⊎ ((work : Work) × (others : List Work) × (works ≡ work ∷ others))
works_cases [] = inl refl
works_cases (work ∷ others) = inr (work, others, refl)

-- 1 for a job whose retry count is negative or the largest int: only such a job can panic.
unfoldable pub count_unfit : Work → ℕ
count_unfit work =
    if leb_ℤ (pos 0) work.event.retry_count && ltb_ℤ work.event.retry_count (pos 0x7fffffffffffffff)
    then 0
    else 1

count_fits :
    (work : Work)
    → count_unfit work ≡ 0
    → (pos 0 ≤ℤ work.event.retry_count) × (work.event.retry_count <ℤ pos 0x7fffffffffffffff)
unfolding count_unfit
count_fits work h = (ground arith, ground arith)

-- How many jobs that wait or run have such a count.
unfoldable pub unfit_jobs : {redis : ScheduleRedis} {store : Store} → Worker redis store → ℕ
unfit_jobs s = in_pools count_unfit s.world.pools + total count_unfit s.running

module _ (redis : ScheduleRedis) (store : Store) ⦃times : TimeText⦄ (max_retries : ℤ)
    (timeout : Duration) (ctx : Context) (processors : Map VersionKey Processor) where
  -- The lanes' work is done, and nothing else has happened.
  pub record Drained (s t : Worker redis store) : Type 0 where
    pub reach : Reach redis store max_retries timeout ctx processors s t
    pub no_job : in_pools one t.world.pools ≡ 0
    pub no_run : t.running ≡ []
    pub same_pending : t.pending ≡ s.pending
    pub same_fetched : t.fetched ≡ s.fetched

  pub Reach-trans :
      {s t u : Worker redis store}
      → Reach redis store max_retries timeout ctx processors s t
      → Reach redis store max_retries timeout ctx processors t u
      → Reach redis store max_retries timeout ctx processors s u
  Reach-trans r here = r
  Reach-trans r (later q x) = later (Reach-trans r q) x

  after :
      {s t u : Worker redis store}
      → Step redis store max_retries timeout ctx processors s t
      → t.pending ≡ s.pending
      → t.fetched ≡ s.fetched
      → Drained t u
      → Drained s u
  after x pending fetched d = record {
    reach = Reach-trans (later here x) d.reach;
    no_job = d.no_job;
    no_run = d.no_run;
    same_pending = d.same_pending ∙ pending;
    same_fetched = d.same_fetched ∙ fetched;
  }

  Step-Holds :
      {s t : Worker redis store}
      → Holds redis store s
      → Step redis store max_retries timeout ctx processors s t
      → Holds redis store t
  Step-Holds h x = Reach-Holds redis store max_retries timeout ctx processors h (later here x)

  abbrev left : Worker redis store → ℕ
  left s = in_pools one s.world.pools + (in_pools one s.world.pools + length s.running)

  -- While a lane has work, one of its steps leaves less of it.
  record Progress (s : Worker redis store) : Type 0 where
    next : Worker redis store
    step : Step redis store max_retries timeout ctx processors s next
    less : left next < left s
    kept_pending : next.pending ≡ s.pending
    kept_fetched : next.fetched ≡ s.fetched
    kept_fit : unfit_jobs next ≤ unfit_jobs s

  ends_one :
      (s : Worker redis store) (work : Work) (others : List Work)
      → unfit_jobs s ≡ 0
      → s.running ≡ work ∷ others
      → Progress s
  unfolding end_job unfit_jobs total
  ends_one s work others fit runs =
      let (low, high) = count_fits work (omega (arith, fit, ap (total count_unfit) runs)) in
      let (end, returned) =
        job_returns_if redis store max_retries timeout ctx work (pos 0) s.world s.claims low high in
      let same =
        (returned_job redis store max_retries timeout ctx work (pos 0) s.world s.claims end
          returned).1 in
      record {
        next = end_job redis store end others s;
        step = ends (pos 0) [] others work end runs returned;
        less = omega (arith, ap (in_pools one) same, ap length runs);
        kept_fit = omega (arith, ap (in_pools count_unfit) same, ap (total count_unfit) runs);
        kept_pending = refl;
        kept_fetched = refl;
      }

  takes_one :
      (s : Worker redis store) → Holds redis store s → 0 < in_pools one s.world.pools → Progress s
  unfolding take unfit_jobs total
  takes_one s h waiting =
      let (t, p, found, filled) = filled_pool s.world.pools h.topics waiting in
      let (i, job, p', received) = receives p filled in
      record {
        next = take redis store t p' job.execute s;
        step = takes t i p p' job found received;
        less = omega (
          arith,
          in_pools-insert one t p p' s.world.pools found,
          (in_pool-receive one i p p' job received).0,
        );
        kept_fit = omega (
          arith,
          in_pools-insert count_unfit t p p' s.world.pools found,
          (in_pool-receive count_unfit i p p' job received).0,
        );
        kept_pending = refl;
        kept_fetched = refl;
      }

  finished :
      (s : Worker redis store)
      → in_pools one s.world.pools ≡ 0
      → s.running ≡ []
      → (t : Worker redis store) × Drained s t
  finished s jobs runs = (
    s,
    record { reach = here; no_job = jobs; no_run = runs; same_pending = refl; same_fetched = refl },
  )

  no_work : (works : List Work) → length works ≤ 0 → works ≡ []
  no_work [] h = refl
  no_work (work ∷ works) h = absurd (omega arith)

  progress :
      (s : Worker redis store) → Holds redis store s → unfit_jobs s ≡ 0 → 0 < left s → Progress s
  progress s h fit busy = elim (works_cases s.running) [
    | inl idle ↦ takes_one s h (omega (arith, busy, ap length idle))
    | inr (work, others, runs) ↦ ends_one s work others fit runs
  ]

  drain_within :
      (n : ℕ) (s : Worker redis store)
      → Holds redis store s
      → unfit_jobs s ≡ 0
      → left s ≤ n
      → (t : Worker redis store) × Drained s t
  drain_within zero s h fit bound =
      finished s (omega (arith, bound)) (no_work s.running (omega (arith, bound)))
  drain_within (suc n) s h fit bound = elim (Bool-cases (ltb 0 (left s))) [
    | inr done ↦ finished s (ground arith) (no_work s.running (ground arith))
    | inl busy ↦
        let p = progress s h fit (ground arith) in
        let (t, d) =
          drain_within n p.next (Step-Holds h p.step) (omega (arith, fit, p.kept_fit))
            (omega (arith, bound, p.less)) in
        (t, after p.step p.kept_pending p.kept_fetched d)
  ]

  -- The lanes can take and end every job, if none can panic.
  pub drains :
      (s : Worker redis store)
      → Holds redis store s
      → unfit_jobs s ≡ 0
      → (t : Worker redis store) × Drained s t
  drains s h fit = drain_within (left s) s h fit (omega arith)
