-- ===== src/Retry/RoundTrip.antt =====
-- The retry envelope survives its trip through the retry topic.
use raider_worker.Event.Errors.{ok}
use raider_worker.Retry.Envelope.{
  RetryEnvelope, decode_time, unmarshal_retry, set_retry, retry_object, parse_retry_envelope,
  marshal_retry, raw_json,
}
use raider_worker.Json.{
  decode_int, in_range, Json, decode_struct, decoded, decode_members, decode_string, Payload,
}
use raider_worker.Time.{TimeText, Time}
use raider_worker.Base.{
  Text, false, is_empty, is_some, some, true, ℤ, ◌≡◌, >>=-eq-some, Option, ap, none, refl,
}

-- The fields that a trip keeps: machine integers, a payload that is there, and the two names that
-- `ParseRetryEnvelope` asks for.
pub record IsSound (env : RetryEnvelope) : Type 0 where
  pub version_fits : in_range env.version ≡ true
  pub count_fits : in_range env.retry_count ≡ true
  pub has_id : is_empty env.event_id ≡ false
  pub has_topic : is_empty env.original_topic ≡ false
  pub has_payload : is_some env.payload ≡ true

pub decode_int_fits :
    (place : Text) (n old : ℤ) → in_range n ≡ true → decode_int place (Json.int n) old ≡ decoded n
unfolding decode_int
decode_int_fits place n old h = rw h

pub raw_json_lem : (o : Option Json) → is_some o ≡ true → some (raw_json o) ≡ o
raw_json_lem none h = cc
raw_json_lem (some j) h = refl

module _ ⦃times : TimeText⦄ where
  decode_time_lem :
      (t : Time) (s : Text) (old : Time)
      → times.format t ≡ some s
      → decode_time (Json.str s) old ≡ decoded t
  unfolding decode_time
  decode_time_lem t s old h = rw (times.parse-format t s h, decode_time)

  -- The members that `marshal_retry` writes, decoded over any struct.
  decode_retry :
      (env : RetryEnvelope) (ts first last next : Text)
      → IsSound env
      → times.format env.timestamp ≡ some ts
      → times.format env.first_failure_time ≡ some first
      → times.format env.last_failure_time ≡ some last
      → times.format env.next_retry_after ≡ some next
      → unmarshal_retry (Payload.json (retry_object env ts first last next)) ≡ decoded env
  unfolding unmarshal_retry decode_struct decode_members set_retry decode_string
  decode_retry env ts first last next s t f l n =
      rw
        (
          decode_int_fits _ env.version _ s.version_fits,
          decode_time_lem env.timestamp ts _ t,
          decode_int_fits _ env.retry_count _ s.count_fits,
          decode_time_lem env.first_failure_time first _ f,
          decode_time_lem env.last_failure_time last _ l,
          decode_time_lem env.next_retry_after next _ n,
        )
        (ap (λ q. decoded (record env { payload = q })) (raw_json_lem env.payload s.has_payload))

  -- How an envelope was marshalled.
  pub record Written (env : RetryEnvelope) (j : Json) : Type 0 where
    pub ts : Text
    pub first : Text
    pub last : Text
    pub next : Text
    pub ts_text : times.format env.timestamp ≡ some ts
    pub first_text : times.format env.first_failure_time ≡ some first
    pub last_text : times.format env.last_failure_time ≡ some last
    pub next_text : times.format env.next_retry_after ≡ some next
    pub same : retry_object env ts first last next ≡ j

  pub marshal_retry-inv :
      (env : RetryEnvelope) (j : Json) → marshal_retry env ≡ some j → Written env j
  unfolding marshal_retry
  marshal_retry-inv env j h =
      let (ts, t, h1) = >>=-eq-some (times.format env.timestamp) _ h in
      let (first, f, h2) = >>=-eq-some (times.format env.first_failure_time) _ h1 in
      let (last, l, h3) = >>=-eq-some (times.format env.last_failure_time) _ h2 in
      let (next, n, h4) = >>=-eq-some (times.format env.next_retry_after) _ h3 in
      record {
        ts = ts;
        first = first;
        last = last;
        next = next;
        ts_text = t;
        first_text = f;
        last_text = l;
        next_text = n;
        same = cc;
      }

  pub unmarshal-marshal_retry :
      (env : RetryEnvelope) (j : Json)
      → IsSound env
      → marshal_retry env ≡ some j
      → unmarshal_retry (Payload.json j) ≡ decoded env
  unmarshal-marshal_retry env j s h =
      let w = marshal_retry-inv env j h in
      rw (← w.same) (
        decode_retry env w.ts w.first w.last w.next s w.ts_text w.first_text w.last_text
          w.next_text)

  -- A sound envelope that can be marshalled is read back unchanged from the retry topic.
  pub retry_round_trip :
      (env : RetryEnvelope) (j : Json)
      → IsSound env
      → marshal_retry env ≡ some j
      → parse_retry_envelope (Payload.json j) ≡ ok env
  unfolding parse_retry_envelope
  retry_round_trip env j s h = rw (unmarshal-marshal_retry env j s h, s.has_id, s.has_topic)
