-- ===== src/Delivery/Queued.antt =====
-- The jobs that wait in the lanes: while there is one, some lane can receive.
use raider_worker.Base.{
  Text, ==_refl, Bool-cases, IsKeyed, List, Map, [], ap, arith, bool_eq, contains, inl, inr, int_eq,
  list_eq, lookup, ltb, nat_eq, refl, some, suc, unit_eq, ℕ, ◌<◌, ◌∷◌, ◌≡◌, eq_of_==, false,
  is_some, set, subst, ◌==◌, ◌⊎◌,
}
use raider_worker.Delivery.Totals.{in_lane, in_pool, in_job}
use raider_worker.Base.{total}
use raider_worker.Delivery.Outstanding.{in_pools}
use raider_worker.Consumer.Dispatch.{Work}
use raider_worker.WorkerPool.Pool.{Pool, Lane, Job, get_lane, receive, take_job}

-- Each job counts once.
abbrev pub one : Work → ℕ
one work = 1

no_jobs :
    (f : Work → ℕ) (jobs : List (Job Work))
    → total (λ j. one j.execute) jobs ≡ 0
    → total (λ j. f j.execute) jobs ≡ 0
unfolding total
no_jobs f [] h = refl
no_jobs f (job ∷ jobs) h = absurd (omega arith)

no_lanes :
    (f : Work → ℕ) (ls : List (Lane Work)) → total (in_lane one) ls ≡ 0 → total (in_lane f) ls ≡ 0
unfolding total
no_lanes f [] h = refl
no_lanes f (l ∷ ls) h = omega (arith, no_jobs f l.jobs (omega arith), no_lanes f ls (omega arith))

-- With no job in any lane, nothing that waits there counts.
pub in_pools-none :
    (f : Work → ℕ) (pools : Map Text (Pool Work)) → in_pools one pools ≡ 0 → in_pools f pools ≡ 0
unfolding in_pools in_pool
in_pools-none f [] h = refl
in_pools-none f ((t, p) ∷ pools) h =
    omega (arith, no_lanes f p.lanes (omega arith), in_pools-none f pools (omega arith))

jobs_cases :
    (jobs : List (Job Work))
    → (jobs ≡ []) ⊎ ((job : Job Work) × (rest : List (Job Work)) × (jobs ≡ job ∷ rest))
jobs_cases [] = inl refl
jobs_cases (job ∷ rest) = inr (job, rest, refl)

filled_lane :
    (ls : List (Lane Work))
    → 0 < total (in_lane one) ls
    → (i : ℕ) × (job : Job Work) × (rest : List (Job Work)) × ((get_lane ls i).jobs ≡ job ∷ rest)
unfolding total
filled_lane [] h = absurd (omega arith)
filled_lane (l ∷ ls) h = elim (jobs_cases l.jobs) [
  | inl empty ↦
      let none_here : total (in_job one) l.jobs ≡ 0 = ap (total (in_job one)) empty in
      let (i, job, rest, filled) = filled_lane ls (omega (arith, none_here)) in
      (suc i, job, rest, filled)
  | inr (job, rest, filled) ↦ (0, job, rest, filled)
]

pub receives :
    (p : Pool Work)
    → 0 < in_pool one p
    → (i : ℕ) × (job : Job Work) × (p' : Pool Work) × (receive i p ≡ some (job, p'))
unfolding in_pool receive take_job
receives p h =
    let (i, job, rest, filled) = filled_lane p.lanes h in
    let l : Lane Work = record { jobs = rest; buffer = (get_lane p.lanes i).buffer } in
    (i, job, record p { lanes = set p.lanes i l }, rw filled refl)

still_found :
    (u : Text) (q : Pool Work) (t : Text) (p : Pool Work) (pools : Map Text (Pool Work))
    → contains u pools ≡ false
    → lookup t pools ≡ some p
    → lookup t ((u, q) ∷ pools) ≡ some p
unfolding lookup contains
still_found u q t p pools fresh found = elim (Bool-cases (u == t)) [
  | inl same ↦
      let absent = subst (λ n. contains n pools ≡ false) (eq_of_== u t same) fresh in
      let present = ap is_some found in absurd (cc)
  | inr apart ↦ rw apart found
]

-- With a job in some lane, a lane can receive.
pub filled_pool :
    (pools : Map Text (Pool Work))
    → IsKeyed pools
    → 0 < in_pools one pools
    → (t : Text) × (p : Pool Work) × (lookup t pools ≡ some p) × (0 < in_pool one p)
unfolding in_pools lookup contains
filled_pool [] keyed h = absurd (omega arith)
filled_pool ((u, q) ∷ pools) keyed h = elim (Bool-cases (ltb 0 (in_pool one q))) [
  | inl filled ↦ (u, q, rw (==_refl u) refl, ground arith)
  | inr empty ↦
      let (t, p, found, filled) = filled_pool pools keyed.1 (ground arith) in
      (t, p, still_found u q t p pools keyed.0 found, filled)
]
