-- ===== src/Event/Validation.antt =====
-- What a parsed event can be relied on for, and which errors are final.
use raider_worker.Json.{Decoded, decoded, malformed}
use raider_worker.Event.Errors.{
  GoError, ok, is_retriable, as_invalid_envelope, FinalIn, err, invalid_envelope,
  as_business_validation, here, envelope, business_validation, business, unknown_event_type,
  message, wrapped, Chain, inner, IsFinal,
}
use raider_worker.Time.{TimeText, Time}
use raider_worker.Event.Types.{Event, RawMessage}
use raider_worker.Base.{
  Text, arith, false, int_beq_iff, is_empty, is_some, none, pos, some, true, ◌↔◌, ◌≡◌, ◌≢◌, Option,
  refl, text, ◌++◌,
}
use raider_worker.Event.Envelope.{
  RawEnvelope, missing_field, check_envelope, parse_and_validate, event_of, unmarshal_envelope,
  after_unmarshal, after_check, after_timestamp, parse_timestamp,
}

pub record IsValid (e : Event) : Type 0 where
  pub versioned : e.version ≢ pos 0
  pub has_id : is_empty e.event_id ≡ false
  pub has_type : is_empty e.event_type ≡ false
  pub has_tenant : is_empty e.tenant_id ≡ false
  pub has_payload : is_some e.payload ≡ true

-- The event comes from where the message did.
pub record SamePlace (raw : RawMessage) (e : Event) : Type 0 where
  pub topic : e.topic ≡ raw.topic
  pub partition : e.partition ≡ raw.partition
  pub offset : e.offset ≡ raw.offset

-- The event's time is the one that the message's own timestamp states, which is not empty.
pub record SameTime ⦃times : TimeText⦄ (raw : RawMessage) (e : Event) : Type 0 where
  pub env : RawEnvelope
  pub decodes : unmarshal_envelope raw.value ≡ decoded env
  pub has_time : is_empty env.timestamp ≡ false
  pub parses : parse_timestamp env.timestamp ≡ some e.timestamp

-- The mandatory fields, once the check has passed.
record Checked (env : RawEnvelope) : Type 0 where
  versioned : env.version ≢ pos 0
  has_id : is_empty env.event_id ≡ false
  has_type : is_empty env.event_type ≡ false
  has_tenant : is_empty env.tenant_id ≡ false
  has_time : is_empty env.timestamp ≡ false
  has_payload : is_some env.payload ≡ true

missing_field-Checked : (env : RawEnvelope) → missing_field env ≡ none → Checked env
unfolding missing_field
missing_field-Checked env h = record {
  versioned = λ z. ground (arith, int_beq_iff env.version (pos 0));
  has_id = ground arith;
  has_type = ground arith;
  has_tenant = ground arith;
  has_time = ground arith;
  has_payload = ground arith;
}

-- How an accepted message was decoded.
pub record Accepted ⦃times : TimeText⦄ (raw : RawMessage) (e : Event) : Type 0 where
  pub env : RawEnvelope
  pub ts : Time
  pub decodes : unmarshal_envelope raw.value ≡ decoded env
  pub complete : missing_field env ≡ none
  pub parses : parse_timestamp env.timestamp ≡ some ts
  pub same : e ≡ event_of raw env ts

module _ ⦃times : TimeText⦄ (raw : RawMessage) where
  pub parse_and_validate-inv : (e : Event) → parse_and_validate raw ≡ ok e → Accepted raw e
  unfolding parse_and_validate
  parse_and_validate-inv e h = from_decoded (unmarshal_envelope raw.value) refl h
    where
      from_time :
          (env : RawEnvelope) (t : Option Time)
          → unmarshal_envelope raw.value ≡ decoded env
          → missing_field env ≡ none
          → parse_timestamp env.timestamp ≡ t
          → after_timestamp raw env t ≡ ok e
          → Accepted raw e
      from_time env none d c p h = unfold after_timestamp in absurd (cc)
      from_time env (some ts) d c p h = record {
        env = env;
        ts = ts;
        decodes = d;
        complete = c;
        parses = p;
        same = unfold after_timestamp in cc;
      }

      from_check :
          (env : RawEnvelope) (m : Option Text)
          → unmarshal_envelope raw.value ≡ decoded env
          → missing_field env ≡ m
          → after_check raw env m ≡ ok e
          → Accepted raw e
      from_check env (some reason) d c h = unfold after_check in absurd (cc)
      from_check env none d c h =
          from_time env (parse_timestamp env.timestamp) d c refl (unfold after_check in h)

      from_decoded :
          (d : Decoded RawEnvelope)
          → unmarshal_envelope raw.value ≡ d
          → after_unmarshal raw d ≡ ok e
          → Accepted raw e
      from_decoded (malformed problem) d h = unfold after_unmarshal in absurd (cc)
      from_decoded (decoded env) d h =
          from_check env (missing_field env) d refl (unfold after_unmarshal check_envelope in h)

  -- An accepted message gives an event with a version other than 0, an id, a type, a tenant and
  -- data, at the message's own topic, partition and offset; and the message has a timestamp, which
  -- is read as the event's time.
  pub parse_and_validate-IsValid :
      (e : Event) → parse_and_validate raw ≡ ok e → IsValid e × SamePlace raw e × SameTime raw e
  parse_and_validate-IsValid e h = rw a.same (
      unfold event_of in
      (
        record {
          versioned = c.versioned;
          has_id = c.has_id;
          has_type = c.has_type;
          has_tenant = c.has_tenant;
          has_payload = c.has_payload;
        },
        record { topic = refl; partition = refl; offset = refl },
        record { env = a.env; decodes = a.decodes; has_time = c.has_time; parses = a.parses },
      ))
    where
      a : Accepted raw e
      a = parse_and_validate-inv e h

      c : Checked a.env
      c = missing_field-Checked a.env a.complete

  -- A refused message is refused for good: the error is an invalid envelope, which is not retried.
  pub parse_and_validate-final :
      (x : GoError)
      → parse_and_validate raw ≡ err x
      → ((reason : Text) × (x ≡ invalid_envelope reason)) × (is_retriable (some x) ≡ false)
  unfolding parse_and_validate
  parse_and_validate-final x h =
      let (reason, e) = refused (unmarshal_envelope raw.value) h in
      ((reason, e), rw e (unfold is_retriable as_invalid_envelope in refl))
    where
      Refused : Type 0
      Refused = (reason : Text) × (x ≡ invalid_envelope reason)

      timed : (env : RawEnvelope) (t : Option Time) → after_timestamp raw env t ≡ err x → Refused
      timed env none h = unfold after_timestamp in (text "invalid timestamp: " ++ env.timestamp, cc)
      timed env (some ts) h = unfold after_timestamp in absurd (cc)

      checked : (env : RawEnvelope) (m : Option Text) → after_check raw env m ≡ err x → Refused
      checked env (some reason) h = unfold after_check in (reason, cc)
      checked env none h = timed env (parse_timestamp env.timestamp) (unfold after_check in h)

      refused : (d : Decoded RawEnvelope) → after_unmarshal raw d ≡ err x → Refused
      refused (malformed problem) h =
          unfold after_unmarshal in (text "json unmarshal: " ++ problem, cc)
      refused (decoded env) h =
          checked env (missing_field env) (unfold after_unmarshal check_envelope in h)

final_sound : {e t : GoError} → Chain e t → IsFinal t → is_retriable (some e) ≡ false
unfolding is_retriable as_invalid_envelope as_business_validation
final_sound (here _) (envelope reason) = refl
final_sound (here _) (business reason) = refl
final_sound (inner prefix c) f = final_sound c f

final_complete : (e : GoError) → is_retriable (some e) ≡ false → FinalIn e
unfolding is_retriable as_invalid_envelope as_business_validation
final_complete (invalid_envelope r) h = (invalid_envelope r, here _, envelope r)
final_complete (business_validation r) h = (business_validation r, here _, business r)
final_complete (unknown_event_type t) h = absurd (cc)
final_complete (message m) h = absurd (cc)
final_complete (wrapped prefix e) h = let (t, c, f) = final_complete e h in (t, inner prefix c, f)

-- An error is final exactly when an invalid envelope or a failed business validation is the error
-- itself or is wrapped in it at some depth.
pub is_retriable_exact : (e : GoError) → (is_retriable (some e) ≡ false) ↔ FinalIn e
is_retriable_exact e = (final_complete e, λ f. final_sound f.1 f.2)
