-- ===== src/Event/Tests.antt =====
-- A run of the parser, and two keys.
use raider_worker.Event.Errors.{ok}
use raider_worker.Event.Affinity.{affinity_key, extract_case_id}
use raider_worker.Event.Types.{Event}
use raider_worker.Event.Keys.{affinity_key_exact}
use raider_worker.Json.{decode_struct, decode_members, decode_int, decode_string}
use raider_worker.Event.Envelope.{
  parse_and_validate, unmarshal_envelope, set_envelope, into_int, into_string, after_unmarshal,
  check_envelope, missing_field, after_check, after_timestamp, parse_timestamp, event_of,
  first_failure,
}
use raider_worker.Samples.Messages.{case_message, case_event}
use raider_worker.Samples.Clock.{sample_times}
use raider_worker.Event.Validation.{IsValid, SamePlace, SameTime, parse_and_validate-IsValid}
use raider_worker.Base.{refl, ◌≡◌, none, text, ◌↔◌}

parsed : parse_and_validate case_message ≡ ok case_event
unfolding parse_and_validate unmarshal_envelope set_envelope decode_struct decode_members into_int
    into_string decode_int decode_string after_unmarshal check_envelope missing_field after_check
    after_timestamp parse_timestamp event_of first_failure
parsed = refl

parse_and_validate-IsValid_example :
    IsValid case_event × SamePlace case_message case_event × SameTime case_message case_event
parse_and_validate-IsValid_example = parse_and_validate-IsValid case_message case_event parsed

abbrev tenant_event : Event
tenant_event = record case_event { payload = none }

affinity_key_exact_example : (affinity_key case_event ≡ affinity_key tenant_event) ↔ (
    (text "t1" ≡ text "t1")
    × (extract_case_id case_event.payload ≡ extract_case_id tenant_event.payload))
affinity_key_exact_example = affinity_key_exact case_event tenant_event refl refl
