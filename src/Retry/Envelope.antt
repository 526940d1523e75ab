-- ===== src/Retry/Envelope.antt =====
-- `RetryEnvelope` of internal/retry/retry.go and its JSON.
use raider_worker.Event.Errors.{Result, err, wrapped, message, ok}
use raider_worker.Json.{
  Payload, Decoded, decode_struct, Json, decoded, malformed, same_name, decode_into, decode_int,
  decode_string, Members,
}
use raider_worker.Time.{TimeText, Time, zero_time}
use raider_worker.Base.{
  ◌>>=◌, Option, Text, [], if◌then◌else◌, is_empty, none, pos, some, text, ℤ, ◌++◌, ◌||◌,
}

pub record RetryEnvelope : Type 0 where
  pub version : ℤ
  pub event_id : Text
  pub event_type : Text
  pub tenant_id : Text
  pub timestamp : Time
  pub payload : Option Json
  pub original_topic : Text
  pub retry_count : ℤ
  pub failure_reason : Text
  pub first_failure_time : Time
  pub last_failure_time : Time
  pub next_retry_after : Time

abbrev pub zero_retry : RetryEnvelope
zero_retry = record {
  version = pos 0;
  event_id = [];
  event_type = [];
  tenant_id = [];
  timestamp = zero_time;
  payload = none;
  original_topic = [];
  retry_count = pos 0;
  failure_reason = [];
  first_failure_time = zero_time;
  last_failure_time = zero_time;
  next_retry_after = zero_time;
}

-- What a `json.RawMessage` is marshalled to: nil gives null.
abbrev pub raw_json : Option Json → Json
raw_json none = Json.null
raw_json (some j) = j

abbrev pub field_place : Text → Text → Text
field_place field go_type =
    text "struct field RetryEnvelope." ++ (field ++ (text " of type " ++ go_type))

-- The object of an envelope whose times have the given texts.
abbrev pub retry_object : RetryEnvelope → Text → Text → Text → Text → Json
retry_object env timestamp first_failure last_failure next_retry = Json.obj (
    Members.member (text "version") (Json.int env.version) (
      Members.member (text "eventId") (Json.str env.event_id) (
        Members.member (text "eventType") (Json.str env.event_type) (
          Members.member (text "tenantId") (Json.str env.tenant_id) (
            Members.member (text "timestamp") (Json.str timestamp) (
              Members.member (text "data") (raw_json env.payload) (
                Members.member (text "originalTopic") (Json.str env.original_topic) (
                  Members.member (text "retryCount") (Json.int env.retry_count) (
                    Members.member (text "failureReason") (Json.str env.failure_reason) (
                      Members.member (text "firstFailureTime") (Json.str first_failure) (
                        Members.member (text "lastFailureTime") (Json.str last_failure) (
                          Members.member (text "nextRetryAfter") (Json.str next_retry)
                            Members.end))))))))))))

module _ ⦃times : TimeText⦄ where
  -- `Time.UnmarshalJSON`, into a field that holds `old`.
  unfoldable pub decode_time : Json → Time → Decoded Time
  decode_time Json.null old = decoded old
  decode_time (Json.str s) old = elim (times.parse_rfc3339 s) [
    | some t ↦ decoded t
    | none ↦ malformed (text "parsing time " ++ s)
  ]
  decode_time j old = malformed (text "Time.UnmarshalJSON: input is not a JSON string")

  unfoldable pub set_retry : Text → Json → RetryEnvelope → Decoded RetryEnvelope
  set_retry name j e =
      if same_name name (text "version")
      then decode_into (λ n. record e { version = n })
          (decode_int (field_place (text "version") (text "int")) j e.version)
      else if same_name name (text "eventid")
      then decode_into (λ s. record e { event_id = s })
          (decode_string (field_place (text "eventId") (text "string")) j e.event_id)
      else if same_name name (text "eventtype")
      then decode_into (λ s. record e { event_type = s })
          (decode_string (field_place (text "eventType") (text "string")) j e.event_type)
      else if same_name name (text "tenantid")
      then decode_into (λ s. record e { tenant_id = s })
          (decode_string (field_place (text "tenantId") (text "string")) j e.tenant_id)
      else if same_name name (text "timestamp")
      then decode_into (λ t. record e { timestamp = t }) (decode_time j e.timestamp)
      else if same_name name (text "data")
      then decoded (record e { payload = some j })
      else if same_name name (text "originaltopic")
      then decode_into (λ s. record e { original_topic = s })
          (decode_string (field_place (text "originalTopic") (text "string")) j e.original_topic)
      else if same_name name (text "retrycount")
      then decode_into (λ n. record e { retry_count = n })
          (decode_int (field_place (text "retryCount") (text "int")) j e.retry_count)
      else if same_name name (text "failurereason")
      then decode_into (λ s. record e { failure_reason = s })
          (decode_string (field_place (text "failureReason") (text "string")) j e.failure_reason)
      else if same_name name (text "firstfailuretime")
      then decode_into (λ t. record e { first_failure_time = t })
          (decode_time j e.first_failure_time)
      else if same_name name (text "lastfailuretime")
      then decode_into (λ t. record e { last_failure_time = t }) (decode_time j e.last_failure_time)
      else if same_name name (text "nextretryafter")
      then decode_into (λ t. record e { next_retry_after = t }) (decode_time j e.next_retry_after)
      else decoded e

  unfoldable pub unmarshal_retry : Payload → Decoded RetryEnvelope
  unmarshal_retry = decode_struct set_retry (text "value of type retry.RetryEnvelope") zero_retry

  abbrev pub after_unmarshal_retry : Decoded RetryEnvelope → Result RetryEnvelope
  after_unmarshal_retry (malformed problem) =
      err (wrapped (text "unmarshal retry envelope: ") (message problem))
  after_unmarshal_retry (decoded env) =
      if is_empty env.event_id || is_empty env.original_topic
      then err (message (text "invalid retry envelope: missing eventId or originalTopic"))
      else ok env

  -- `ParseRetryEnvelope`.
  unfoldable pub parse_retry_envelope : Payload → Result RetryEnvelope
  parse_retry_envelope raw = after_unmarshal_retry (unmarshal_retry raw)

  -- `json.Marshal(env)`: nothing if a time has no text.
  unfoldable pub marshal_retry : RetryEnvelope → Option Json
  marshal_retry env = do
    timestamp ← times.format env.timestamp
    first_failure ← times.format env.first_failure_time
    last_failure ← times.format env.last_failure_time
    next_retry ← times.format env.next_retry_after
    some (retry_object env timestamp first_failure last_failure next_retry)
