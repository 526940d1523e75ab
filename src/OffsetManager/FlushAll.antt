-- ===== src/OffsetManager/FlushAll.antt =====
-- `FlushAll`: one request with a record for each partition that has advanced.
use raider_worker.Base.{
  Bool, Bool-cases, IsKeyed, List, Map, Option, [], arith, bool_eq, contains, contains-eq-false,
  false, if◌then◌else◌, inl, inr, int_eq, is_some, length, length-delete-lt, list_eq, lookup,
  lookup-remap, nat_eq, none, refl, remap, some, suc, true, unit_eq, zero, ℕ, ℤ, ◌&&◌, ◌==◌, ◌∷◌,
  ◌≡◌, ◌≤◌,
}
use mathlib.Core.Option
use raider_worker.OffsetManager.Partition.{
  PartitionState, bump, advance, settle, committable_offset,
}
use raider_worker.OffsetManager.Manager.{
  PartitionKey, key_eq, key_beq_iff, Manager, CommitRecord, commit_request, add_request, collect,
  flush_all,
}

-- The record of a request for one partition.
unfoldable pub record_for : PartitionKey → List CommitRecord → Option CommitRecord
record_for j [] = none
record_for j (r ∷ records) = let rest = record_for j records in if r.key == j then some r else rest

abbrev pub request_of : PartitionKey → Option PartitionState → Option CommitRecord
request_of k none = none
request_of k (some st) = commit_request k (committable_offset st).1

record_for-add :
    (j k : PartitionKey) (o : Option (ℤ × ℤ)) (records : List CommitRecord)
    → record_for j (add_request (commit_request k o) records)
      ≡ (if (k == j) && is_some o then commit_request k o else record_for j records)
unfolding record_for
record_for-add j k none records = ground arith
record_for-add j k (some (offset, epoch)) records = ground arith

record_for-collect :
    (j : PartitionKey) (ps : Map PartitionKey PartitionState)
    → IsKeyed ps
    → record_for j (collect ps) ≡ request_of j (lookup j ps)
unfolding collect record_for lookup contains
record_for-collect j [] h = refl
record_for-collect j ((k, st) ∷ ps) h = ground (
  arith,
  key_beq_iff k j,
  record_for-add j k (committable_offset st).1 (collect ps),
  record_for-collect j ps h.1,
)

-- `FlushAll` flushes every partition, and its request has for each partition the record that a
-- flush of that partition alone would commit.
pub flush_all_exact :
    (m : Manager) (j : PartitionKey)
    → IsKeyed m.partitions
    → (lookup j (flush_all m).0.partitions
        ≡ Option.map (λ st. (committable_offset st).0) (lookup j m.partitions))
      × (record_for j (flush_all m).1 ≡ request_of j (lookup j m.partitions))
unfolding flush_all
flush_all_exact m j h = (
  lookup-remap (λ k st. (committable_offset st).0) j m.partitions,
  record_for-collect j m.partitions h,
)

-- With fuel for every completed offset the loop ends by its test, whatever the state.
advance_stuck :
    (fuel : ℕ) (st : PartitionState) (advanced : Bool)
    → length st.completed ≤ fuel
    → let r = (advance fuel st advanced).0 in contains r.next_commit r.completed ≡ false
unfolding advance
advance_stuck zero st advanced h = contains-eq-false st.next_commit st.completed h
advance_stuck (suc fuel) st advanced h = elim (Bool-cases (contains st.next_commit st.completed)) [
  | inl hit ↦ rw hit (
      advance_stuck fuel (bump st) true
        (unfold bump in omega (arith, h, length-delete-lt st.next_commit st.completed hit)))
  | inr miss ↦ rw miss miss
]

advance_none :
    (fuel : ℕ) (st : PartitionState)
    → contains st.next_commit st.completed ≡ false
    → advance fuel st false ≡ (st, false)
unfolding advance
advance_none zero st h = refl
advance_none (suc fuel) st h = rw h

settle_stuck :
    (r : PartitionState × Bool)
    → contains r.0.next_commit r.0.completed ≡ false
    → let st = (settle r).0 in contains st.next_commit st.completed ≡ false
unfolding settle
settle_stuck (st, false) h = h
settle_stuck (st, true) h = ground arith

committable_none :
    (st : PartitionState)
    → contains st.next_commit st.completed ≡ false
    → committable_offset st ≡ (st, none)
unfolding committable_offset settle
committable_none st h = rw (advance_none (length st.completed) st h)

-- A second flush with nothing completed in between commits nothing.
pub committable_twice :
    (st : PartitionState)
    → let st' = (committable_offset st).0 in committable_offset st' ≡ (st', none)
committable_twice st = committable_none (committable_offset st).0 (
    unfold committable_offset in
    settle_stuck (advance (length st.completed) st false)
      (advance_stuck (length st.completed) st false (omega arith)))

collect_twice :
    (ps : Map PartitionKey PartitionState)
    → collect (remap (λ k st. (committable_offset st).0) ps) ≡ []
unfolding collect remap
collect_twice [] = refl
collect_twice ((k, st) ∷ ps) = rw (committable_twice st) (collect_twice ps)

-- `FlushAll` marks its offsets committed before it knows the client's answer: whether the commit
-- succeeds or fails, a second `FlushAll` with no completion in between makes no request.
pub failed_commit_not_repeated : (m : Manager) → (flush_all (flush_all m).0).1 ≡ []
unfolding flush_all
failed_commit_not_repeated m = collect_twice m.partitions
