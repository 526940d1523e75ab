-- ===== src/Delivery/Unheld.antt =====
-- A partition of which nothing is held is in no line, so its revocation changes none.
use raider_worker.Delivery.Worker.{without}
use raider_worker.WorkerPool.Pool.{Lane, Job, Pool, get_lane}
use raider_worker.Consumer.Dispatch.{Work}
use raider_worker.Event.Types.{RawMessage}
use raider_worker.Delivery.Totals.{in_pool, in_job, in_lane}
use raider_worker.Base.{total}
use raider_worker.Delivery.Outstanding.{in_pools, hit, hit_work, hit_pending}
use raider_worker.OffsetManager.Manager.{PartitionKey}
use raider_worker.Base.{
  ==_refl, Bool-cases, List, Map, Option, Text, [], arith, bool_eq, inl, inr, int_eq, length,
  list_eq, lookup, nat_eq, none, some, suc, unit_eq, zero, ℕ, ℤ, ◌++◌, ◌==◌, ◌∷◌, ◌≡◌, ◌≤◌,
}
use mathlib.Core.Option.{some-injective}
use raider_worker.Delivery.Lines.{InLine, Lines}
use raider_worker.Delivery.Line.{Without, Line-without, sources, held}

pub InLine-revoked :
    (k : PartitionKey) (fetched : List RawMessage) (pending : Option RawMessage) (n i : ℕ)
    (jobs : List (Job Work))
    → Without k (sources jobs ++ held pending)
    → InLine n i fetched pending jobs
    → InLine n i (without k fetched) pending jobs
InLine-revoked k fetched pending n i jobs idle h = record {
  placed = h.placed;
  line = Line-without k fetched (sources jobs ++ held pending) idle h.line;
}

-- Nothing of a partition is in a lane, if the worker holds nothing of it.
Without-jobs :
    (k : PartitionKey) (pending : Option RawMessage) (jobs : List (Job Work))
    → ((o : ℤ) → total (in_job (hit_work k o)) jobs ≡ 0)
    → ((o : ℤ) → hit_pending k o pending ≡ 0)
    → Without k (sources jobs ++ held pending)
unfolding sources total hit
Without-jobs k none [] idle free = tt
Without-jobs k (some raw) [] idle free = (ground (arith, free raw.offset, ==_refl raw.offset), tt)
Without-jobs k pending (j ∷ js) idle free = (
  ground (arith, idle j.execute.source.offset, ==_refl j.execute.source.offset),
  Without-jobs k pending js (λ o. omega (arith, idle o)) free,
)

pub in_lane-le :
    (f : Work → ℕ) (ls : List (Lane Work)) (i : ℕ)
    → in_lane f (get_lane ls i) ≤ total (in_lane f) ls
unfolding total
in_lane-le f [] i = omega arith
in_lane-le f (l ∷ ls) zero = omega arith
in_lane-le f (l ∷ ls) (suc i) = omega (arith, in_lane-le f ls i)

in_pool-le :
    (f : Work → ℕ) (t : Text) (p : Pool Work) (pools : Map Text (Pool Work))
    → lookup t pools ≡ some p
    → in_pool f p ≤ in_pools f pools
unfolding in_pools lookup
in_pool-le f t p [] e = absurd (cc)
in_pool-le f t p ((u, q) ∷ pools) e = elim (Bool-cases (u == t)) [
  | inl same ↦ let is : q ≡ p = some-injective _ _ (rw same at e) in rw is (omega arith)
  | inr apart ↦
      let rest : lookup t pools ≡ some p = rw apart at e in
      omega (arith, in_pool-le f t p pools rest)
]

pub Lines-revoke :
    (k : PartitionKey) (fetched : List RawMessage) (pending : Option RawMessage)
    (pools : Map Text (Pool Work))
    → ((o : ℤ) → in_pools (hit_work k o) pools ≡ 0)
    → ((o : ℤ) → hit_pending k o pending ≡ 0)
    → Lines fetched pending pools
    → Lines (without k fetched) pending pools
unfolding in_pool
Lines-revoke k fetched pending pools idle free h t p i found =
    InLine-revoked k fetched pending (length p.lanes) i _
      (Without-jobs k pending (get_lane p.lanes i).jobs
        (λ o. omega (
          arith,
          in_lane-le (hit_work k o) p.lanes i,
          in_pool-le (hit_work k o) t p pools found,
          idle o,
        ))
        free)
      (h t p i found)
