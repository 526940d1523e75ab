-- ===== src/Kafka.antt =====
-- What the worker hands to the Kafka client (franz-go), and how a publication can end before that.
use raider_worker.Json.{Payload, Json}
use raider_worker.Base.{Option, Text, none, some}

pub record KafkaRecord : Type 0 where
  pub topic : Text
  pub key : Text
  pub value : Payload

-- A call of a publisher: an index out of range, which panics; a payload that `json.Marshal`
-- refuses, which is logged and dropped; or one `Produce`.
pub data Publication : Type 0 where
  index_panic : Publication
  not_marshalled : Publication
  produced : KafkaRecord → Publication

-- The end of a publication whose payload was marshalled, or not.
abbrev pub produce : Text → Text → Option Json → Publication
produce topic key none = not_marshalled
produce topic key (some j) = produced (record { topic = topic; key = key; value = Payload.json j })
