-- ===== src/Event/Envelope.antt =====
-- internal/event/envelope.go: the message on the wire, its decoding and its validation.
use raider_worker.Base.{
  Option, Text, [], bool_eq, if◌then◌else◌, int_eq, is_empty, is_some, list_eq, nat_eq, none, pos,
  some, text, unit_eq, ℤ, ◌++◌, ◌==◌,
}
use raider_worker.Event.Errors.{invalid_envelope, Result, err, ok}
use raider_worker.Event.Types.{Event, RawMessage}
use raider_worker.Json.{
  Json, Payload, Decoded, bind_decoded, same_name, decode_int, decode_string, decode_struct,
  decoded, malformed,
}
use raider_worker.Time.{Time, TimeText}

pub record RawEnvelope : Type 0 where
  pub version : ℤ
  pub event_id : Text
  pub event_type : Text
  pub tenant_id : Text
  pub timestamp : Text
  pub payload : Option Json
  pub retry_count : ℤ
  pub failure_reason : Text
  pub first_failure_time : Text

abbrev pub zero_envelope : RawEnvelope
zero_envelope = record {
  version = pos 0;
  event_id = [];
  event_type = [];
  tenant_id = [];
  timestamp = [];
  payload = none;
  retry_count = pos 0;
  failure_reason = [];
  first_failure_time = [];
}

abbrev envelope_place : Text → Text → Text
envelope_place field go_type =
    text "struct field rawEnvelope." ++ (field ++ (text " of type " ++ go_type))

unfoldable pub into_int : Text → Json → ℤ → (ℤ → RawEnvelope) → Decoded RawEnvelope
into_int field j old set_to =
    bind_decoded (decode_int (envelope_place field (text "int")) j old) (λ n. decoded (set_to n))

unfoldable pub into_string : Text → Json → Text → (Text → RawEnvelope) → Decoded RawEnvelope
into_string field j old set_to =
    bind_decoded (decode_string (envelope_place field (text "string")) j old)
      (λ s. decoded (set_to s))

-- The member `name` with the value `j`, into the field that it names.
unfoldable pub set_envelope : Text → Json → RawEnvelope → Decoded RawEnvelope
unfolding into_int into_string decode_int decode_string
set_envelope name j e =
    if same_name name (text "version")
    then into_int (text "version") j e.version (λ n. record e { version = n })
    else if same_name name (text "eventid")
    then into_string (text "eventId") j e.event_id (λ s. record e { event_id = s })
    else if same_name name (text "eventtype")
    then into_string (text "eventType") j e.event_type (λ s. record e { event_type = s })
    else if same_name name (text "tenantid")
    then into_string (text "tenantId") j e.tenant_id (λ s. record e { tenant_id = s })
    else if same_name name (text "timestamp")
    then into_string (text "timestamp") j e.timestamp (λ s. record e { timestamp = s })
    else if same_name name (text "data")
    then decoded (record e { payload = some j })
    else if same_name name (text "retrycount")
    then into_int (text "retryCount") j e.retry_count (λ n. record e { retry_count = n })
    else if same_name name (text "failurereason")
    then into_string (text "failureReason") j e.failure_reason
        (λ s. record e { failure_reason = s })
    else if same_name name (text "firstfailuretime")
    then into_string (text "firstFailureTime") j e.first_failure_time
        (λ s. record e { first_failure_time = s })
    else decoded e

unfoldable pub unmarshal_envelope : Payload → Decoded RawEnvelope
unfolding set_envelope decode_struct
unmarshal_envelope =
    decode_struct set_envelope (text "value of type event.rawEnvelope") zero_envelope

-- `validateMandatoryFields`: the reason of the first missing field.
unfoldable pub missing_field : RawEnvelope → Option Text
missing_field env =
    if env.version == pos 0
    then some (text "missing or zero version")
    else if is_empty env.event_id
    then some (text "missing eventId")
    else if is_empty env.event_type
    then some (text "missing eventType")
    else if is_empty env.tenant_id
    then some (text "missing tenantId")
    else if is_empty env.timestamp
    then some (text "missing timestamp")
    else if is_some env.payload
    then none
    else some (text "missing data")

module _ ⦃times : TimeText⦄ where
  -- `parseTimestamp`.
  unfoldable pub parse_timestamp : Text → Option Time
  parse_timestamp s = elim (times.parse_rfc3339 s) [ some t ↦ some t | none ↦ times.parse_utc s ]

  -- An empty text and one that does not parse both leave the pointer nil.
  unfoldable pub first_failure : Text → Option Time
  unfolding parse_timestamp
  first_failure s = if is_empty s then none else parse_timestamp s

  unfoldable pub event_of : RawMessage → RawEnvelope → Time → Event
  unfolding first_failure
  event_of raw env ts = record {
    version = env.version;
    event_id = env.event_id;
    event_type = env.event_type;
    tenant_id = env.tenant_id;
    timestamp = ts;
    payload = env.payload;
    topic = raw.topic;
    partition = raw.partition;
    offset = raw.offset;
    retry_count = env.retry_count;
    failure_reason = env.failure_reason;
    first_failure_time = first_failure env.first_failure_time;
  }

  unfoldable pub after_timestamp : RawMessage → RawEnvelope → Option Time → Result Event
  after_timestamp raw env none =
      err (invalid_envelope (text "invalid timestamp: " ++ env.timestamp))
  after_timestamp raw env (some ts) = ok (event_of raw env ts)

  unfoldable pub after_check : RawMessage → RawEnvelope → Option Text → Result Event
  after_check raw env (some reason) = err (invalid_envelope reason)
  after_check raw env none = after_timestamp raw env (parse_timestamp env.timestamp)

  unfoldable pub check_envelope : RawMessage → RawEnvelope → Result Event
  check_envelope raw env = after_check raw env (missing_field env)

  unfoldable pub after_unmarshal : RawMessage → Decoded RawEnvelope → Result Event
  after_unmarshal raw (malformed problem) =
      err (invalid_envelope (text "json unmarshal: " ++ problem))
  after_unmarshal raw (decoded env) = check_envelope raw env

  -- `ParseAndValidate`.
  unfoldable pub parse_and_validate : RawMessage → Result Event
  parse_and_validate raw = after_unmarshal raw (unmarshal_envelope raw.value)
