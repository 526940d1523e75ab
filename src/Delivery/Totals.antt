-- ===== src/Delivery/Totals.antt =====
-- Sums over the jobs of pools, and what `Submit` and a lane's receive do to them.
use raider_worker.WorkerPool.System.{submit_cases}
use raider_worker.WorkerPool.Order.{take_cases, filled_lane-lt, lane_for-lt}
use raider_worker.WorkerPool.Pool.{Lane, Job, Pool, receive, get_lane, submit, sent, lane_for}
use mathlib.Core.Option.{some-injective}
use raider_worker.Base.{
  Text, List, [], arith, inl, inr, length, set, some, suc, zero, ℕ, ◌++◌, ◌+◌, ◌<◌, ◌∷◌, ◌≡◌, ap,
  length-set, sym, ◌∙◌, total, total-append,
}

module _ {A : Type 0} (f : A → ℕ) where
  abbrev pub in_job : Job A → ℕ
  in_job job = f job.execute

  abbrev pub in_lane : Lane A → ℕ
  in_lane l = total in_job l.jobs

  -- The sum over the jobs that wait in a pool.
  unfoldable pub in_pool : Pool A → ℕ
  in_pool p = total in_lane p.lanes

  total-set :
      (ls : List (Lane A)) (i : ℕ) (l : Lane A)
      → i < length ls
      → total in_lane (set ls i l) + in_lane (get_lane ls i) ≡ total in_lane ls + in_lane l
  unfolding total
  total-set [] i l h = absurd (omega arith)
  total-set (x ∷ xs) zero l h = omega arith
  total-set (x ∷ xs) (suc i) l h = omega (arith, total-set xs i l (omega arith))

  -- A job that `Submit` sends is one more in the pool.
  pub in_pool-submit :
      (key : Text) (a : A) (p p' : Pool A)
      → 0 < length p.lanes
      → submit key a p ≡ sent p'
      → (in_pool p' ≡ f a + in_pool p) × (length p'.lanes ≡ length p.lanes)
  unfolding in_pool total
  in_pool-submit key a p p' h s = elim (submit_cases key a p) [
    | inl e ↦ absurd (cc)
    | inr (inl e) ↦ absurd (cc)
    | inr (inr (room, e)) ↦
        let i = lane_for p key in
        let jobs = (get_lane p.lanes i).jobs in
        let job : Job A = record { key = key; execute = a } in
        let l : Lane A = record (get_lane p.lanes i) { jobs = jobs ++ job ∷ [] } in
        let same : p' ≡ record p { lanes = set p.lanes i l } = cc in
        rw same (
          omega (
            arith,
            total-set p.lanes i l (lane_for-lt key p h),
            total-append in_job jobs (job ∷ []),
          ),
          length-set p.lanes i l,
        )
  ]

  in_pool-take :
      (i : ℕ) (p p' : Pool A) (job job' : Job A) (rest : List (Job A))
      → (get_lane p.lanes i).jobs ≡ job' ∷ rest
      → job' ≡ job
      → record p {
        lanes = set p.lanes i (record { jobs = rest; buffer = (get_lane p.lanes i).buffer });
      }
        ≡ p'
      → (in_pool p ≡ f job.execute + in_pool p') × (length p'.lanes ≡ length p.lanes)
  unfolding in_pool total
  in_pool-take i p p' job job' rest filled same_job same_pool =
      let l : Lane A = record { jobs = rest; buffer = (get_lane p.lanes i).buffer } in
      let count = total-set p.lanes i l (filled_lane-lt p.lanes i job' rest filled) in
      rw (← same_pool, ← same_job)
        (omega (arith, count, ap (total in_job) filled), length-set p.lanes i l)

  -- A job that a lane receives is one less in the pool.
  pub in_pool-receive :
      (i : ℕ) (p p' : Pool A) (job : Job A)
      → receive i p ≡ some (job, p')
      → (in_pool p ≡ f job.execute + in_pool p') × (length p'.lanes ≡ length p.lanes)
  unfolding receive
  in_pool-receive i p p' job h =
      let l = get_lane p.lanes i in
      elim (take_cases i p l.buffer l.jobs) [
        | inl e ↦ absurd (cc)
        | inr (job', rest, filled, e) ↦
            let l' : Lane A = record { jobs = rest; buffer = l.buffer } in
            let same : (job', record p { lanes = set p.lanes i l' }) ≡ (job, p') =
              some-injective _ _ (sym e ∙ h) in
            in_pool-take i p p' job job' rest filled (ap (λ x. x.0) same) (ap (λ x. x.1) same)
      ]
