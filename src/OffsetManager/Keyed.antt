-- ===== src/OffsetManager/Keyed.antt =====
-- The manager has one state for each partition, whatever is called.
use raider_worker.OffsetManager.Partition.{new_state, mark_complete, PartitionState, wakes_drain}
use raider_worker.Base.{
  Bool-cases, IsKeyed, Map, Option, Option-cases, [], arith, bool_eq, contains, inl, inr,
  insert-IsKeyed, int_eq, list_eq, lookup, lookup-remap, nat_eq, none, remap, some, unit_eq, ℕ, ℤ,
  ◌∷◌, insert, ◌≡◌, leb_ℤ, pos,
}
use raider_worker.OffsetManager.Manager.{
  PartitionKey, Manager, state, put, track, signal, complete, flush_all, key_eq, begin_drain,
}

pub state-IsKeyed :
    (k : PartitionKey) (m : Manager) → IsKeyed m.partitions → IsKeyed (state k m).1.partitions
unfolding state
state-IsKeyed k m h = elim (Option-cases (lookup k m.partitions)) [
  | inl fresh ↦
      let made : state k m
          ≡ (new_state, record m { partitions = insert k new_state m.partitions }) =
        rw (fresh, state) in
      rw made (insert-IsKeyed k new_state m.partitions h)
  | inr (st, found) ↦ let there : state k m ≡ (st, m) = rw (found, state) in rw there h
]

signal-IsKeyed :
    (ch : Option ℕ) (m : Manager) → IsKeyed m.partitions → IsKeyed (signal ch m).partitions
unfolding signal
signal-IsKeyed none m h = h
signal-IsKeyed (some ch) m h = h

pub track-IsKeyed :
    (k : PartitionKey) (o epoch : ℤ) (m : Manager)
    → IsKeyed m.partitions
    → IsKeyed (track k o epoch m).partitions
unfolding track put
track-IsKeyed k o epoch m h = insert-IsKeyed k _ _ (state-IsKeyed k m h)

pub complete-IsKeyed :
    (k : PartitionKey) (o : ℤ) (m : Manager)
    → IsKeyed m.partitions
    → IsKeyed (complete k o m).partitions
unfolding complete put
complete-IsKeyed k o m h =
    let kept = insert-IsKeyed k (mark_complete o (state k m).0) _ (state-IsKeyed k m h) in
    elim (Bool-cases (wakes_drain (mark_complete o (state k m).0))) [
      | inl wakes ↦ rw wakes (signal-IsKeyed _ _ kept)
      | inr sleeps ↦ rw sleeps kept
    ]

remap-IsKeyed :
    (f : PartitionKey → PartitionState → PartitionState) (m : Map PartitionKey PartitionState)
    → IsKeyed m
    → IsKeyed (remap f m)
unfolding remap contains
remap-IsKeyed f [] h = tt
remap-IsKeyed f ((k, st) ∷ m) h = (ground (arith, lookup-remap f k m, h.0), remap-IsKeyed f m h.1)

pub flush_all-IsKeyed : (m : Manager) → IsKeyed m.partitions → IsKeyed (flush_all m).0.partitions
unfolding flush_all
flush_all-IsKeyed m h = remap-IsKeyed _ m.partitions h

pub begin_drain-IsKeyed :
    (k : PartitionKey) (m : Manager) → IsKeyed m.partitions → IsKeyed (begin_drain k m).1.partitions
unfolding begin_drain put
begin_drain-IsKeyed k m h =
    let kept = state-IsKeyed k m h in
    elim (Bool-cases (leb_ℤ (state k m).0.in_flight (pos 0))) [
      | inl idle ↦ rw idle kept
      | inr busy ↦ rw busy (insert-IsKeyed k _ _ kept)
    ]
