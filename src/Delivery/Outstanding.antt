-- ===== src/Delivery/Outstanding.antt =====
-- The copies of a record that the worker holds: the pending one, those in lanes, those that run.
use raider_worker.Consumer.Pools.{stop_pools}
use raider_worker.Event.Types.{RawMessage}
use raider_worker.Delivery.Totals.{in_pool}
use raider_worker.Base.{total}
use raider_worker.Idempotency.{Store}
use raider_worker.Retry.ScheduleRedis.{ScheduleRedis}
use raider_worker.OffsetManager.Manager.{PartitionKey, key_eq}
use raider_worker.WorkerPool.Pool.{Pool, stop}
use mathlib.Core.Option.{some-injective}
use raider_worker.Consumer.Pools.{stop_pools}
use raider_worker.Base.{
  Text, Bool-cases, Map, Option, [], arith, bool_eq, if◌then◌else◌, inl, inr, insert, int_eq,
  length, list_eq, lookup, lookup-insert, nat_eq, none, some, sym, unit_eq, ℕ, ℤ, ◌&&◌, ◌+◌, ◌<◌,
  ◌==◌, ◌∙◌, ◌∷◌, ◌≡◌, IsKeyed, Option-cases, contains, lookup-remap, refl, remap,
}
use raider_worker.Delivery.Worker.{Worker}
use raider_worker.Consumer.Dispatch.{Work, place}

module _ {A : Type 0} (f : A → ℕ) where
  -- The sum over the jobs that wait in any pool.
  unfoldable pub in_pools : Map Text (Pool A) → ℕ
  in_pools [] = 0
  in_pools ((t, p) ∷ pools) = in_pool f p + in_pools pools

  pub in_pools-insert :
      (t : Text) (p p' : Pool A) (pools : Map Text (Pool A))
      → lookup t pools ≡ some p
      → in_pools (insert t p' pools) + in_pool f p ≡ in_pools pools + in_pool f p'
  unfolding in_pools lookup insert
  in_pools-insert t p p' [] h = absurd (cc)
  in_pools-insert t p p' ((u, q) ∷ pools) h = elim (Bool-cases (u == t)) [
    | inl same ↦
        let found : q ≡ p = some-injective _ _ (rw same at h) in rw (same, found) (omega arith)
    | inr other ↦
        let later : lookup t pools ≡ some p = rw other at h in
        rw other (omega (arith, in_pools-insert t p p' pools later))
  ]

-- Closing the lanes leaves their jobs.
pub in_pools-stop_pools :
    {A : Type 0} (f : A → ℕ) (pools : Map Text (Pool A))
    → in_pools f (stop_pools pools) ≡ in_pools f pools
unfolding in_pools stop_pools remap in_pool stop
in_pools-stop_pools f [] = refl
in_pools-stop_pools f ((t, p) ∷ pools) = omega (arith, in_pools-stop_pools f pools)

-- 1 for the record at the offset `o` of the partition `k`.
unfoldable pub hit : PartitionKey → ℤ → RawMessage → ℕ
hit k o raw = if (place raw == k) && (raw.offset == o) then 1 else 0

abbrev pub hit_work : PartitionKey → ℤ → Work → ℕ
hit_work k o work = hit k o work.source

abbrev pub hit_pending : PartitionKey → ℤ → Option RawMessage → ℕ
hit_pending k o none = 0
hit_pending k o (some raw) = hit k o raw

-- Every pool has a lane.
abbrev pub HasLanes : Map Text (Pool Work) → Type 0
HasLanes pools = (t : Text) (p : Pool Work) → lookup t pools ≡ some p → 0 < length p.lanes

pub insert-HasLanes :
    (t : Text) (p p' : Pool Work) (pools : Map Text (Pool Work))
    → HasLanes pools
    → lookup t pools ≡ some p
    → length p'.lanes ≡ length p.lanes
    → HasLanes (insert t p' pools)
insert-HasLanes t p p' pools h found same u q e = elim (Bool-cases (t == u)) [
  | inl here ↦
      let is : p' ≡ q = some-injective _ _ (sym (lookup-insert t u p' pools ∙ rw here) ∙ e) in
      rw (← is, same) (h t p found)
  | inr apart ↦ h u q (sym (lookup-insert t u p' pools ∙ rw apart) ∙ e)
]

pub stop_pools-HasLanes :
    (pools : Map Text (Pool Work)) → HasLanes pools → HasLanes (stop_pools pools)
unfolding stop_pools stop
stop_pools-HasLanes pools h t p e = elim (Option-cases (lookup t pools)) [
  | inl missing ↦
      let gone : lookup t (stop_pools pools) ≡ none = lookup-remap _ t pools ∙ rw missing in
      absurd (cc)
  | inr (q, found) ↦
      let closed : some (stop q) ≡ some p = sym (lookup-remap _ t pools ∙ rw found) ∙ e in
      rw (← some-injective _ _ closed) (h t q found)
]

pub stop_pools-IsKeyed : (pools : Map Text (Pool Work)) → IsKeyed pools → IsKeyed (stop_pools pools)
unfolding stop_pools contains remap
stop_pools-IsKeyed [] h = tt
stop_pools-IsKeyed ((t, p) ∷ pools) h =
    (ground (arith, lookup-remap (λ topic p. stop p) t pools, h.0), stop_pools-IsKeyed pools h.1)

module _ (redis : ScheduleRedis) (store : Store) where
  -- How often the worker holds the record at the offset `o` of the partition `k`.
  unfoldable pub outstanding : PartitionKey → ℤ → Worker redis store → ℕ
  outstanding k o s =
      hit_pending k o s.pending
      + (in_pools (hit_work k o) s.world.pools + total (hit_work k o) s.running)
