-- ===== src/Consumer/Rebalance.antt =====
-- internal/consumer/rebalance.go: what the callbacks of a rebalance do to the offset manager.
use raider_worker.OffsetManager.Waiting.{Others, drain}
use raider_worker.Base.{List, Option, [], ◌∷◌}
use raider_worker.OffsetManager.Manager.{
  PartitionKey, key_eq, Manager, CommitRecord, flush_partition, forget, add_request,
}

-- `OnPartitionsRevoked` for one partition: it drains, flushes whether or not the drain timed out,
-- and forgets. The request is the flush's.
unfoldable pub revoke_partition : Others → PartitionKey → Manager → Manager × Option CommitRecord
revoke_partition others k m =
    let m' = (drain others k m).0 in
    let (m'', request) = flush_partition k m' in (forget k m'', request)

-- `OnPartitionsRevoked`: the partitions with the calls that come during each drain.
unfoldable pub on_partitions_revoked :
    List (PartitionKey × Others) → Manager → Manager × List CommitRecord
on_partitions_revoked [] m = (m, [])
on_partitions_revoked ((k, others) ∷ rest) m =
    let (m', request) = revoke_partition others k m in
    let (m'', requests) = on_partitions_revoked rest m' in (m'', add_request request requests)

-- `OnPartitionsLost`.
unfoldable pub on_partitions_lost : List PartitionKey → Manager → Manager
on_partitions_lost [] m = m
on_partitions_lost (k ∷ rest) m = on_partitions_lost rest (forget k m)
