-- ===== src/Metrics.antt =====
-- The counters of internal/metrics/metrics.go, as the increments that the code makes.
use raider_worker.Base.{Text}

-- Labels in the order of the code: topic, then event type, then tenant, then reason.
pub data Metric : Type 0 where
  messages_received : Text → Text → Metric
  messages_processed : Text → Text → Text → Metric
  messages_failed : Text → Text → Text → Text → Metric
  messages_retried : Text → Text → Text → Metric
  messages_dlq : Text → Text → Text → Metric
