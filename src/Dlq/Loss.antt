-- ===== src/Dlq/Loss.antt =====
-- Which messages reach the dead letter queue.
use raider_worker.Json.{Payload}
use raider_worker.Kafka.{not_marshalled, produced, Publication, produce}
use raider_worker.Event.Types.{RawMessage}
use raider_worker.Time.{TimeText, Time}
use raider_worker.Base.{Text, some, text, ◌++◌, ◌≡◌, refl}
use raider_worker.Dlq.{
  dlq_topic, dlq_object, raw_dlq_record, marshal_record, publish_raw, TimeText, Time, RawMessage,
  Json, Payload, Publication, produce,
}

module _ ⦃times : TimeText⦄ (now : Time) where
  -- What `PublishRaw` produces for a payload that is marshalled to `original`.
  abbrev pub raw_produced : RawMessage → Text → Text → Json → Publication
  raw_produced raw reason ts original = produced (record {
    topic = raw.topic ++ text ".dlq";
    key = raw.key;
    value = Payload.json (dlq_object (raw_dlq_record now raw reason) original ts);
  })

  -- What becomes of a message with the body given.
  abbrev pub fate : RawMessage → Text → Text → Payload → Publication
  fate raw reason ts (Payload.garbage bytes problem) = not_marshalled
  fate raw reason ts Payload.absent = raw_produced raw reason ts Json.null
  fate raw reason ts (Payload.json j) = raw_produced raw reason ts j

  marshalled :
      (raw : RawMessage) (reason ts : Text) (v : Payload)
      → times.format now ≡ some ts
      → produce
          (raw.topic ++ text ".dlq")
          raw.key
          (marshal_record (record (raw_dlq_record now raw reason) { original_payload = v }))
        ≡ fate raw reason ts v
  unfolding marshal_record raw_dlq_record
  marshalled raw reason ts (Payload.garbage bytes problem) h = refl
  marshalled raw reason ts Payload.absent h = rw h refl
  marshalled raw reason ts (Payload.json j) h = rw h refl

  -- With a clock that RFC 3339 can write, a message whose body is JSON, or is absent, is produced
  -- to its topic's queue with that body, or with null. A message whose body is no JSON never reaches
  -- the queue: marshalling its record fails, and `PublishRaw` drops it.
  pub publish_raw_exact :
      (raw : RawMessage) (reason ts : Text)
      → times.format now ≡ some ts
      → publish_raw now raw reason ≡ fate raw reason ts raw.value
  unfolding publish_raw dlq_topic raw_dlq_record
  publish_raw_exact raw reason ts h = marshalled raw reason ts raw.value h
