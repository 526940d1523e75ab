-- ===== src/Retry/Cycle.antt =====
-- An event's whole trip: retry topic, schedule, original topic, and back through the parser.
use raider_worker.Kafka.{produced}
use raider_worker.Event.Validation.{IsValid}
use raider_worker.Retry.Publisher.{retry_envelope, or_now}
use raider_worker.Event.Errors.{ok}
use raider_worker.Event.Types.{RawMessage, Event}
use raider_worker.Retry.Scheduler.{republish_object, republish, marshal_republish}
use raider_worker.Retry.RoundTrip.{
  IsSound, decode_int_fits, raw_json_lem, Written, marshal_retry-inv, retry_round_trip,
}
use raider_worker.Retry.Envelope.{RetryEnvelope, marshal_retry, parse_retry_envelope}
use raider_worker.Event.Envelope.{
  unmarshal_envelope, set_envelope, into_int, into_string, first_failure, parse_and_validate,
  parse_timestamp, after_unmarshal, check_envelope, missing_field, after_check, after_timestamp,
  event_of, RawEnvelope,
}
use raider_worker.Time.{TimeText, Time, Duration}
use raider_worker.Json.{
  Payload, decoded, decode_struct, decode_members, decode_string, Json, in_range,
}
use raider_worker.Base.{
  Text, ◌≡◌, ap, false, is_empty, pos, some, ◌≢◌, add64, bool_eq, int_eq, is_some, list_eq, nat_eq,
  none, true, unit_eq, ◌==◌, ◌∙◌, Bool-cases, eq_of_==, inl, inr, refl, ℤ,
}

module _ ⦃times : TimeText⦄ where
  -- The members that `republish` writes, decoded as an envelope of the original topic.
  decode_republished :
      (env : RetryEnvelope) (ts first : Text)
      → IsSound env
      → unmarshal_envelope (Payload.json (republish_object env ts first))
        ≡ decoded (record {
          version = env.version;
          event_id = env.event_id;
          event_type = env.event_type;
          tenant_id = env.tenant_id;
          timestamp = ts;
          payload = env.payload;
          retry_count = env.retry_count;
          failure_reason = env.failure_reason;
          first_failure_time = first;
        })
  unfolding unmarshal_envelope decode_struct decode_members set_envelope into_int into_string
      decode_string
  decode_republished env ts first s =
      rw
        (
          decode_int_fits _ env.version _ s.version_fits,
          decode_int_fits _ env.retry_count _ s.count_fits,
        )
        (ap
          (λ q. decoded (record {
            version = env.version;
            event_id = env.event_id;
            event_type = env.event_type;
            tenant_id = env.tenant_id;
            timestamp = ts;
            payload = q;
            retry_count = env.retry_count;
            failure_reason = env.failure_reason;
            first_failure_time = first;
          }))
          (raw_json_lem env.payload s.has_payload))

  -- The envelope's event as it comes back with the message `raw`.
  abbrev pub redelivery : RetryEnvelope → RawMessage → Event
  redelivery env raw = record {
    version = env.version;
    event_id = env.event_id;
    event_type = env.event_type;
    tenant_id = env.tenant_id;
    timestamp = env.timestamp;
    payload = env.payload;
    topic = raw.topic;
    partition = raw.partition;
    offset = raw.offset;
    retry_count = env.retry_count;
    failure_reason = env.failure_reason;
    first_failure_time = some env.first_failure_time;
  }

  parse_timestamp_lem : (t : Time) (s : Text) → times.format t ≡ some s → parse_timestamp s ≡ some t
  unfolding parse_timestamp
  parse_timestamp_lem t s h = rw (times.parse-format t s h, parse_timestamp)

  first_failure_lem : (t : Time) (s : Text) → times.format t ≡ some s → first_failure s ≡ some t
  unfolding first_failure
  first_failure_lem t s h = rw (times.format_filled t s h) (parse_timestamp_lem t s h)

  -- What the original topic's parser asks of a republished envelope, beyond `IsSound`.
  pub record IsComplete (env : RetryEnvelope) : Type 0 where
    pub versioned : env.version ≢ pos 0
    pub has_type : is_empty env.event_type ≡ false
    pub has_tenant : is_empty env.tenant_id ≡ false

  envelope_of : RetryEnvelope → Text → Text → RawEnvelope
  envelope_of env ts first = record {
    version = env.version;
    event_id = env.event_id;
    event_type = env.event_type;
    tenant_id = env.tenant_id;
    timestamp = ts;
    payload = env.payload;
    retry_count = env.retry_count;
    failure_reason = env.failure_reason;
    first_failure_time = first;
  }

  missing_field-none :
      (env : RawEnvelope)
      → env.version ≢ pos 0
      → is_empty env.event_id ≡ false
      → is_empty env.event_type ≡ false
      → is_empty env.tenant_id ≡ false
      → is_empty env.timestamp ≡ false
      → is_some env.payload ≡ true
      → missing_field env ≡ none
  unfolding missing_field
  missing_field-none env a b c d e f =
      let v : (env.version == pos 0) ≡ false = elim (Bool-cases (env.version == pos 0)) [
        | inl t ↦ absurd (a (eq_of_== env.version (pos 0) t))
        | inr n ↦ n
      ] in
      rw (v, b, c, d, e, f)

  parse_republished :
      (env : RetryEnvelope) (ts first : Text) (raw : RawMessage)
      → IsSound env
      → IsComplete env
      → times.format env.timestamp ≡ some ts
      → times.format env.first_failure_time ≡ some first
      → raw.value ≡ Payload.json (republish_object env ts first)
      → parse_and_validate raw ≡ ok (redelivery env raw)
  unfolding parse_and_validate envelope_of after_unmarshal check_envelope after_check
      after_timestamp event_of
  parse_republished env ts first raw s c t f v =
      let e = envelope_of env ts first in
      ap (after_unmarshal raw) (ap unmarshal_envelope v ∙ decode_republished env ts first s)
      ∙ ap (after_check raw e) (
          missing_field-none e c.versioned s.has_id c.has_type c.has_tenant
            (times.format_filled env.timestamp ts t) s.has_payload)
      ∙ ap (after_timestamp raw e) (parse_timestamp_lem env.timestamp ts t)
      ∙ ap (λ o. ok (record (redelivery env raw) { first_failure_time = o }))
          (first_failure_lem env.first_failure_time first f)

  -- An event that failed with budget left, sent to its retry topic: the scheduler reads it back,
  -- republishes it to the original topic under the tenant's key, and the parser there makes the
  -- same event of it at whatever partition and offset the message lands, with one retry more, the
  -- reason of the failure and the time of the first failure. The conditions: a valid event whose topic is not empty and whose numbers are machine
  -- integers, and times that have a text.
  pub retry_cycle :
      (now : Time) (e : Event) (reason : Text) (delay : Duration) (j : Json) (partition offset : ℤ)
      (key : Text)
      → IsValid e
      → is_empty e.topic ≡ false
      → in_range e.version ≡ true
      → in_range (add64 e.retry_count (pos 1)) ≡ true
      → marshal_retry (retry_envelope now e reason delay) ≡ some j
      → (env : RetryEnvelope) × (sent : Json) × (parse_retry_envelope (Payload.json j) ≡ ok env)
        × (republish env
            ≡ produced (record { topic = e.topic; key = e.tenant_id; value = Payload.json sent }))
        × (parse_and_validate (record {
          topic = e.topic;
          partition = partition;
          offset = offset;
          key = key;
          value = Payload.json sent;
        })
            ≡ ok (record e {
              partition = partition;
              offset = offset;
              retry_count = add64 e.retry_count (pos 1);
              failure_reason = reason;
              first_failure_time = some (or_now now e.first_failure_time);
            }))
  unfolding republish marshal_republish retry_envelope
  retry_cycle now e reason delay j partition offset key valid topic version count h = (
    env,
    republish_object env w.ts w.first,
    retry_round_trip env j sound h,
    rw (w.ts_text, w.first_text),
    parse_republished env w.ts w.first _ sound complete w.ts_text w.first_text refl,
  )
    where
      env : RetryEnvelope
      env = retry_envelope now e reason delay

      w : Written env j
      w = marshal_retry-inv env j h

      sound : IsSound env
      sound = record {
        version_fits = version;
        count_fits = count;
        has_id = valid.has_id;
        has_topic = topic;
        has_payload = valid.has_payload;
      }

      complete : IsComplete env
      complete = record {
        versioned = valid.versioned;
        has_type = valid.has_type;
        has_tenant = valid.has_tenant;
      }
