-- ===== src/Dlq.antt =====
-- internal/dlq/publisher.go: the dead letter queue.
use raider_worker.Metrics.{Metric, messages_dlq}
use raider_worker.Kafka.{Publication, produce}
use raider_worker.Event.Errors.{GoError}
use raider_worker.Json.{Payload, Json, Members}
use raider_worker.Event.Types.{Event, RawMessage}
use raider_worker.Time.{Time, TimeText}
pub mod Loss
mod Tests
use raider_worker.Base.{List, Option, Text, [], none, pos, some, text, ℤ, ◌++◌, ◌>>=◌, ◌∷◌}

-- `Record`.
pub record DlqRecord : Type 0 where
  pub original_payload : Payload
  pub topic : Text
  pub partition : ℤ
  pub offset : ℤ
  pub event_type : Text
  pub tenant_id : Text
  pub event_id : Text
  pub failure_reason : Text
  pub retry_count : ℤ
  pub timestamp : Time

unfoldable pub dlq_topic : Text → Text
dlq_topic topic = topic ++ text ".dlq"

-- What a `json.RawMessage` is marshalled to: nil gives null, and a text that is no JSON is an
-- error of `json.Marshal`.
abbrev pub marshal_raw : Payload → Option Json
marshal_raw Payload.absent = some Json.null
marshal_raw (Payload.garbage bytes problem) = none
marshal_raw (Payload.json j) = some j

-- The record of `Publish`.
unfoldable pub dlq_record : Time → Event → Payload → Text → ℤ → DlqRecord
dlq_record now e raw_value failure_reason retry_count = record {
  original_payload = raw_value;
  topic = e.topic;
  partition = e.partition;
  offset = e.offset;
  event_type = e.event_type;
  tenant_id = e.tenant_id;
  event_id = e.event_id;
  failure_reason = failure_reason;
  retry_count = retry_count;
  timestamp = now;
}

-- The record of `PublishRaw`: the fields that only an event has stay empty.
unfoldable pub raw_dlq_record : Time → RawMessage → Text → DlqRecord
raw_dlq_record now raw failure_reason = record {
  original_payload = raw.value;
  topic = raw.topic;
  partition = raw.partition;
  offset = raw.offset;
  event_type = [];
  tenant_id = [];
  event_id = [];
  failure_reason = failure_reason;
  retry_count = pos 0;
  timestamp = now;
}

-- The object of a record whose payload and time have been marshalled.
abbrev pub dlq_object : DlqRecord → Json → Text → Json
dlq_object r original timestamp = Json.obj (
    Members.member (text "originalPayload") original (
      Members.member (text "topic") (Json.str r.topic) (
        Members.member (text "partition") (Json.int r.partition) (
          Members.member (text "offset") (Json.int r.offset) (
            Members.member (text "eventType") (Json.str r.event_type) (
              Members.member (text "tenantId") (Json.str r.tenant_id) (
                Members.member (text "eventId") (Json.str r.event_id) (
                  Members.member (text "failureReason") (Json.str r.failure_reason) (
                    Members.member (text "retryCount") (Json.int r.retry_count)
                      (Members.member (text "timestamp") (Json.str timestamp) Members.end))))))))))

module _ ⦃times : TimeText⦄ where
  -- `json.Marshal(rec)`.
  unfoldable pub marshal_record : DlqRecord → Option Json
  marshal_record r = do
    original ← marshal_raw r.original_payload
    timestamp ← times.format r.timestamp
    some (dlq_object r original timestamp)

  -- `Publish`.
  unfoldable pub publish : Time → Event → Payload → Text → ℤ → Publication
  unfolding dlq_record
  publish now e raw_value failure_reason retry_count =
      produce (dlq_topic e.topic) e.tenant_id
        (marshal_record (dlq_record now e raw_value failure_reason retry_count))

  -- `PublishRaw`.
  unfoldable pub publish_raw : Time → RawMessage → Text → Publication
  unfolding raw_dlq_record
  publish_raw now raw failure_reason =
      produce (dlq_topic raw.topic) raw.key (marshal_record (raw_dlq_record now raw failure_reason))

-- The callback of `Publish`.
unfoldable pub dlq_delivered : Event → Option GoError → List Metric
dlq_delivered e (some produce_err) = []
dlq_delivered e none = messages_dlq e.topic e.event_type e.tenant_id ∷ []
