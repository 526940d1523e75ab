-- ===== src/Consumer/Revocation.antt =====
-- What a rebalance leaves behind in the offset manager.
use raider_worker.OffsetManager.Flush.{Outcome}
use raider_worker.OffsetManager.Safety.{Session-Inv, flush-Flushed}
use raider_worker.OffsetManager.Drain.{begin_drain_lem}
use raider_worker.Base.{
  List, [], arith, bool_eq, elem, if◌then◌else◌, int_eq, list_eq, lookup, lookup-delete, nat_eq,
  none, refl, unit_eq, ◌∷◌, ◌≡◌, ap, inl, inr, length, lookup-delete_self, neg_part, pos, pos_part,
  some, sym, true, ℤ, ◌<ℤ◌, ◌||◌, ◌∙◌, ◌≤ℤ◌,
}
use raider_worker.OffsetManager.Partition.{PartitionState, committable_offset}
use raider_worker.OffsetManager.Manager.{
  PartitionKey, key_eq, key_beq_iff, Manager, commit_request, flush_partition, forget,
}
use raider_worker.OffsetManager.Refinement.{or_new, state-or_new}
use raider_worker.OffsetManager.Session.{View, Session}
use raider_worker.OffsetManager.Progress.{flushed, drained_commit}
use raider_worker.OffsetManager.Waiting.{Others, drain}
use raider_worker.Consumer.Rebalance.{revoke_partition, on_partitions_lost}

-- After `OnPartitionsLost` the lost partitions have no state, and the others have theirs.
pub lookup-on_partitions_lost :
    (j : PartitionKey) (ks : List PartitionKey) (m : Manager)
    → lookup j (on_partitions_lost ks m).partitions
      ≡ (if elem j ks then none else lookup j m.partitions)
unfolding on_partitions_lost forget
lookup-on_partitions_lost j [] m = refl
lookup-on_partitions_lost j (k ∷ ks) m = ground (
  arith,
  lookup-on_partitions_lost j ks (forget k m),
  lookup-delete k j m.partitions,
  key_beq_iff k j,
)

-- A revoked partition is flushed as its drain left it, and then has no state.
pub revoke_partition_lem :
    (others : Others) (k : PartitionKey) (m : Manager)
    → let m' = (drain others k m).0 in
      (lookup k (revoke_partition others k m).0.partitions ≡ none)
      × ((revoke_partition others k m).1
          ≡ commit_request k (committable_offset (or_new (lookup k m'.partitions))).1)
unfolding revoke_partition forget flush_partition
revoke_partition_lem others k m = (
  lookup-delete_self k _,
  ap (λ st. commit_request k (committable_offset st).1) (state-or_new k (drain others k m).0),
)

-- With nothing in flight `Drain` changes nothing.
drain_idle :
    (others : Others) (k : PartitionKey) (m : Manager) (st : PartitionState)
    → lookup k m.partitions ≡ some st
    → st.in_flight ≡ pos 0
    → (drain others k m).0 ≡ m
unfolding drain
drain_idle others k m st h f = rw (begin_drain_lem k m st h, f) refl

-- A revoked partition that has nothing in flight and no gap commits the newest offset it tracked,
-- unless that is committed already.
pub revoke_commits_newest :
    {start : ℤ} {v : View} (s : Session start v) (others : Others) (k : PartitionKey) (m : Manager)
    → lookup k m.partitions ≡ some v.state
    → v.in_work ≡ []
    → ((o : ℤ) → start ≤ℤ o → o ≤ℤ v.newest → (elem o v.in_work || elem o v.done) ≡ true)
    → v.state.last_committed <ℤ v.newest
    → (revoke_partition others k m).1
      ≡ some (record { key = k; offset = v.newest; leader_epoch = v.state.epoch })
revoke_commits_newest {start} {v} s others k m h idle dense behind =
    (revoke_partition_lem others k m).1
    ∙ rw (drain_idle others k m v.state h (count ∙ ap (λ xs. pos (length xs)) idle), h)
        (go (flush-Flushed (Session-Inv s)).outcome)
  where
    count : v.state.in_flight ≡ pos (length v.in_work)
    count = (Session-Inv s).work.count

    last : (flushed v).state.last_committed ≡ v.newest
    last = drained_commit s idle dense

    go :
        Outcome v.state (committable_offset v.state)
        → commit_request k (committable_offset v.state).1
          ≡ some (record { key = k; offset = v.newest; leader_epoch = v.state.epoch })
    go (inl (e, _, _, _)) = rw (e, last, (flush-Flushed (Session-Inv s)).same_epoch)
    go (inr (_, e)) =
        let same : v.state.last_committed ≡ v.newest =
          ap (λ st. st.last_committed) (sym e) ∙ last in
        absurd (omega (arith, behind, ap pos_part same, ap neg_part same))
