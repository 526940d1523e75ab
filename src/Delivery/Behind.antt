-- ===== src/Delivery/Behind.antt =====
-- What waits behind a job that its lane takes: nothing of its partition and key at a lower offset.
use raider_worker.WorkerPool.Hash.{sum32}
use raider_worker.Consumer.Dispatch.{Work}
use mathlib.Core.Option.{some-injective}
use mathlib.Core.List.{append_assoc}
use raider_worker.Base.{
  lookup-insert, ==_refl, List, Map, Option, Text, [], ap, bool_eq, inl, inr, insert, int_eq,
  length, list_eq, lookup, nat_eq, some, subst, sym, unit_eq, ℕ, ◌%◌, ◌++◌, ◌∙◌, ◌∷◌, ◌≡◌,
}
use raider_worker.Event.Types.{RawMessage}
use raider_worker.WorkerPool.Pool.{receive, Job, Pool, get_lane}
use raider_worker.WorkerPool.System.{Placed, set_cases}
use raider_worker.WorkerPool.Order.{filled_lane-lt}
use raider_worker.Delivery.Line.{held, sources, Before, BeforeAll-at, BeforeAll, sources-append}
use raider_worker.Delivery.Lines.{Lines, InLine}
use raider_worker.Delivery.Order.{Unstarted, waits, is_pending, receive_parts}

Placed-at :
    (n i : ℕ) (job : Job Work) (xs ys : List (Job Work))
    → Placed n i (xs ++ job ∷ ys)
    → sum32 job.key % n ≡ i
Placed-at n i job [] ys h = h.0
Placed-at n i job (x ∷ xs) ys h = Placed-at n i job xs ys h.1

-- A job of a line is behind the first one, if it is of a lane of the same key.
Line-at :
    (first : RawMessage) (jobs before after : List (Job Work)) (job : Job Work)
    (pending : Option RawMessage)
    → BeforeAll first (sources jobs ++ held pending)
    → jobs ≡ before ++ job ∷ after
    → Before first job.execute.source
unfolding sources
Line-at first jobs before after job pending h e =
    BeforeAll-at first job.execute.source (sources before) (sources after ++ held pending) (
      subst (BeforeAll first)
        (ap (λ js. sources js ++ held pending) e
          ∙ ap (λ rs. rs ++ held pending) (sources-append before (job ∷ after))
          ∙ append_assoc (sources before) (job.execute.source ∷ sources after) (held pending))
        h)

module _ (fetched : List RawMessage) (pending : Option RawMessage) (pools : Map Text (Pool Work))
    (topic : Text) (i : ℕ) (pool pool' : Pool Work) (job : Job Work)
    (ordered : Lines fetched pending pools) (found : lookup topic pools ≡ some pool)
    (r : receive i pool ≡ some (job, pool')) where
  -- In the pool that is left, a job under the key is in the lane that was taken from.
  behind_job :
      (j : ℕ) (before after : List (Job Work)) (next_job : Job Work)
      → (get_lane pool'.lanes j).jobs ≡ before ++ next_job ∷ after
      → next_job.key ≡ job.key
      → Before job.execute.source next_job.execute.source
  unfolding sources
  behind_job j before after next_job at same_key =
      let (rest, filled, same) = receive_parts i pool pool' job r in
      let line =
        subst (InLine (length pool.lanes) i fetched pending) filled (ordered topic pool i found) in
      let stands =
        subst (λ v. (get_lane v.lanes j).jobs ≡ before ++ next_job ∷ after) (sym same) at in
      elim (set_cases pool.lanes i j
        (record { jobs = rest; buffer = (get_lane pool.lanes i).buffer })
        (filled_lane-lt pool.lanes i job rest filled)) [
          | inl (here, e) ↦
              Line-at job.execute.source rest before after next_job pending line.line.0.0
                (sym (ap (λ l. l.jobs) e) ∙ stands)
          | inr (other, e) ↦
              let jobs = sym (ap (λ l. l.jobs) e) ∙ stands in
              let place =
                Placed-at (length pool.lanes) j next_job before after
                  (subst (Placed (length pool.lanes) j) jobs (ordered topic pool j found).placed) in
              absurd (
                other (
                  sym line.placed.0 ∙ ap (λ k. sum32 k % length pool.lanes) (sym same_key) ∙ place))
        ]

  -- What still waits under the key of a job that was first in its lane.
  pub behind_first :
      (raw : RawMessage)
      → Unstarted (insert topic pool' pools) pending topic job.key raw
      → Before job.execute.source raw
  unfolding sources
  behind_first raw (is_pending raw' e) =
      let (rest, filled, same) = receive_parts i pool pool' job r in
      let first =
        subst (InLine (length pool.lanes) i fetched pending) filled (ordered topic pool i found) in
      BeforeAll-at job.execute.source raw' (sources rest) []
        (subst (λ v. BeforeAll job.execute.source (sources rest ++ held v)) e first.line.0.0)
  behind_first raw (waits left j next_job before after found' at same_key) =
      let same : pool' ≡ left =
        some-injective _ _
          (sym (lookup-insert topic topic pool' pools ∙ rw (==_refl topic)) ∙ found') in
      behind_job j before after next_job
        (subst (λ v. (get_lane v.lanes j).jobs ≡ before ++ next_job ∷ after) (sym same) at) same_key
