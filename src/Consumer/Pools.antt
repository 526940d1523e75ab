-- ===== src/Consumer/Pools.antt =====
-- `New` of internal/consumer/consumer.go: a worker pool for each topic, and the topics that
-- cmd/worker/main.go subscribes to.
use raider_worker.Config.Load.{Config, WorkerConfig}
use raider_worker.WorkerPool.Pool.{Pool}
use raider_worker.WorkerPool.Pool as WorkerPool
use raider_worker.Base.{
  Text, ℤ, List, Map, Option, [], bool_eq, if◌then◌else◌, int_eq, list_eq, ltb_ℤ, nat_eq, negsuc,
  none, pos, some, sub_ℕ, suc, text, unit_eq, wrap64, ◌++◌, ◌/◌, ◌==◌, ◌>>=◌, ◌∷◌, remap,
}

-- Go's `/`, for a divisor that is not 0: it rounds toward 0, and wraps around in one case.
unfoldable pub quotient : ℤ → ℤ → ℤ
unfolding wrap64
quotient (pos a) (pos b) = pos (a / b)
quotient (pos a) (negsuc b) = sub_ℕ 0 (a / suc b)
quotient (negsuc a) (pos b) = sub_ℕ 0 (suc a / b)
quotient (negsuc a) (negsuc b) = wrap64 (pos (suc a / suc b))

-- `bufferPerLane`: nothing where the division panics.
unfoldable pub buffer_per_lane : ℤ → ℤ → Option ℤ
buffer_per_lane queue_buffer_size lane_count =
    let b = quotient queue_buffer_size lane_count in
    if lane_count == pos 0 then none else if ltb_ℤ b (pos 50) then some (pos 50) else some b

module _ {ℓ} {A : Type ℓ} where
  abbrev pub pool_with : ℤ → Option ℤ → Option (Pool A)
  pool_with lane_count none = none
  pool_with lane_count (some b) = some (WorkerPool.new lane_count b)

  -- The pools of `New`: nothing where it panics.
  unfoldable pub new_pools : WorkerConfig → Option (Map Text (Pool A))
  new_pools w = do
    cases ← pool_with w.case_count (buffer_per_lane w.queue_buffer_size w.case_count)
    payments ← pool_with w.payment_count (buffer_per_lane w.queue_buffer_size w.payment_count)
    visits ← pool_with w.visit_count (buffer_per_lane w.queue_buffer_size w.visit_count)
    notifications ←
        pool_with w.notification_count (buffer_per_lane w.queue_buffer_size w.notification_count)
    some (
        (text "cases", cases)
        ∷ (text "payments", payments)
        ∷ (text "visits", visits)
        ∷ (text "notifications", notifications)
        ∷ [])

-- The topics of kgo.ConsumeTopics.
unfoldable pub all_topics : Config → List Text
all_topics cfg = cfg.kafka.topics ++ cfg.kafka.retry_topics

-- `Stop`, before the lanes are empty: every pool is stopped. A second call finds them stopped.
unfoldable pub stop_pools : {A : Type 0} → Map Text (Pool A) → Map Text (Pool A)
stop_pools pools = remap (λ topic p. WorkerPool.stop p) pools
