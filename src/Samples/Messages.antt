-- ===== src/Samples/Messages.antt =====
-- A message of the topic "cases", the event that it holds, and two processors.
use raider_worker.Event.Errors.{message}
use raider_worker.Event.Types.{Processor, RawMessage, Context, Event, panicked, returned}
use raider_worker.Json.{Json, Members, Payload}
use raider_worker.Base.{Text, [], none, pos, some, text, ◌∷◌}

abbrev pub t_one : Text
t_one = 43 ∷ 1 ∷ []

abbrev pub case_payload : Json
case_payload = Json.obj (Members.member (text "caseId") (Json.str (text "c9")) Members.end)

abbrev pub case_json : Json
case_json = Json.obj (
    Members.member (text "version") (Json.int (pos 1)) (
      Members.member (text "eventId") (Json.str (text "e1")) (
        Members.member (text "eventType") (Json.str (text "VISIT_APPROVED")) (
          Members.member (text "tenantId") (Json.str (text "t1")) (
            Members.member (text "timestamp") (Json.str t_one)
              (Members.member (text "data") case_payload Members.end))))))

abbrev pub case_message : RawMessage
case_message = record {
  topic = text "cases";
  partition = pos 0;
  offset = pos 7;
  key = text "t1";
  value = Payload.json case_json;
}

abbrev pub case_event : Event
case_event = record {
  version = pos 1;
  event_id = text "e1";
  event_type = text "VISIT_APPROVED";
  tenant_id = text "t1";
  timestamp = pos 1;
  payload = some case_payload;
  topic = text "cases";
  partition = pos 0;
  offset = pos 7;
  retry_count = pos 0;
  failure_reason = [];
  first_failure_time = none;
}

abbrev pub garbage_message : RawMessage
garbage_message = record case_message {
  value = Payload.garbage (text "{") (text "unexpected end of JSON input");
}

abbrev pub background : Context
background = record { values = []; deadline = none }

-- A processor that fails with an error that is not final, and one that panics.
abbrev pub failing : Processor
failing ctx e = returned (some (message (text "timeout")))

abbrev pub panicking : Processor
panicking ctx e = panicked (text "nil map")
