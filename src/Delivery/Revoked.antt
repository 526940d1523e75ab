-- ===== src/Delivery/Revoked.antt =====
-- What a revoked partition leaves behind in the offset manager.
use raider_worker.Consumer.Dispatch.{place}
use raider_worker.OffsetManager.Keyed.{state-IsKeyed, begin_drain-IsKeyed}
use raider_worker.Event.Types.{RawMessage}
use raider_worker.Base.{
  IsKeyed, List, [], ap, arith, bool_eq, delete-IsKeyed, if◌then◌else◌, insert-IsKeyed, int_eq,
  list_eq, lookup, nat_eq, none, refl, unit_eq, ℕ, ◌==◌, ◌∷◌, ◌≡◌, Bool-cases, inl, inr, ◌∙◌,
}
use raider_worker.OffsetManager.Refinement.{call, local, lookup-call, drains, flushes, forgets}
use raider_worker.OffsetManager.Manager.{
  PartitionKey, Manager, DrainStart, drained, waits, begin_drain, flush_partition, forget, receive,
  put, key_eq,
}
use raider_worker.OffsetManager.Waiting.{drain, wait_for, await}
use raider_worker.Consumer.Rebalance.{revoke_partition}
use raider_worker.Delivery.Worker.{offsets_at, without}

partitions-receive : (ch : ℕ) (m : Manager) → (await ch [] m).0.partitions ≡ m.partitions
unfolding await receive
partitions-receive ch m = ground arith

partitions-drain :
    (k : PartitionKey) (m : Manager) → (drain [] k m).0.partitions ≡ (begin_drain k m).1.partitions
unfolding drain wait_for
partitions-drain k m = waiting (begin_drain k m)
  where
    waiting : (r : DrainStart × Manager) → (wait_for [] r).0.partitions ≡ r.1.partitions
    waiting (drained, m') = refl
    waiting (waits ch, m') = partitions-receive ch m'

-- A revocation forgets its partition and leaves the others alone.
pub lookup-revoke :
    (k j : PartitionKey) (m : Manager)
    → lookup j (revoke_partition [] k m).0.partitions
      ≡ (if k == j then none else lookup j m.partitions)
unfolding revoke_partition call local
lookup-revoke k j m =
    let m' = (drain [] k m).0 in
    let m'' = (flush_partition k m').0 in
    let forgotten = lookup-call k j forgets m'' in
    let flushed = lookup-call k j flushes m' in
    let started = lookup-call k j drains m in
    let same = ap (lookup j) (partitions-drain k m) in
    elim (Bool-cases (k == j)) [
      | inl gone ↦ forgotten ∙ rw gone
      | inr apart ↦
          let kept = rw apart at forgotten in
          let unflushed = rw apart at flushed in
          let unchanged = rw apart at started in kept ∙ unflushed ∙ same ∙ unchanged ∙ rw apart
    ]

pub offsets_at-without :
    (k j : PartitionKey) (rs : List RawMessage)
    → offsets_at j (without k rs) ≡ (if k == j then [] else offsets_at j rs)
unfolding offsets_at without
offsets_at-without k j [] = ground arith
offsets_at-without k j (r ∷ rs) = ground (
  arith,
  key_eq.beq_iff (place r) k,
  key_eq.beq_iff (place r) j,
  key_eq.beq_iff k j,
  offsets_at-without k j rs,
)

pub revoke-IsKeyed :
    (k : PartitionKey) (m : Manager)
    → IsKeyed m.partitions
    → IsKeyed (revoke_partition [] k m).0.partitions
unfolding revoke_partition forget flush_partition put
revoke-IsKeyed k m h = delete-IsKeyed k _ (
    insert-IsKeyed k _ _
      (state-IsKeyed k (drain [] k m).0 (rw (partitions-drain k m) (begin_drain-IsKeyed k m h))))
