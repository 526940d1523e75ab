-- ===== src/Processors.antt =====
-- internal/processor: the two processors, which decode an event's data and, so far, log it.
use raider_worker.Event.Errors.{business_validation}
use raider_worker.Event.Types.{Outcome, Processor, returned}
pub mod Verdict
mod Tests
use raider_worker.Json.{
  Json, Payload, Decoded, decoded, malformed, decode_into, decode_struct, same_name, decode_string,
}
use raider_worker.Base.{Text, Option, [], if◌then◌else◌, none, some, text, ◌++◌}

-- `VisitApprovedData`.
pub record VisitApprovedData : Type 0 where
  pub visit_id : Text
  pub agent_id : Text
  pub case_id : Text
  pub approved_at : Text

-- `NotificationTriggeredData`.
pub record NotificationTriggeredData : Type 0 where
  pub notification_id : Text
  pub recipient_id : Text
  pub channel : Text
  pub template_id : Text
  pub payload : Option Json

abbrev pub zero_visit : VisitApprovedData
zero_visit = record { visit_id = []; agent_id = []; case_id = []; approved_at = [] }

abbrev pub zero_notification : NotificationTriggeredData
zero_notification = record {
  notification_id = [];
  recipient_id = [];
  channel = [];
  template_id = [];
  payload = none;
}

abbrev pub string_place : Text → Text → Text
string_place type_name field =
    text "struct field " ++ (type_name ++ (text "." ++ (field ++ text " of type string")))

unfoldable pub set_visit : Text → Json → VisitApprovedData → Decoded VisitApprovedData
set_visit name j d =
    if same_name name (text "visitid")
    then decode_into (λ s. record d { visit_id = s })
        (decode_string (string_place (text "VisitApprovedData") (text "visitId")) j d.visit_id)
    else if same_name name (text "agentid")
    then decode_into (λ s. record d { agent_id = s })
        (decode_string (string_place (text "VisitApprovedData") (text "agentId")) j d.agent_id)
    else if same_name name (text "caseid")
    then decode_into (λ s. record d { case_id = s })
        (decode_string (string_place (text "VisitApprovedData") (text "caseId")) j d.case_id)
    else if same_name name (text "approvedat")
    then decode_into (λ s. record d { approved_at = s })
        (decode_string (string_place (text "VisitApprovedData") (text "approvedAt")) j
          d.approved_at)
    else decoded d

unfoldable pub set_notification :
    Text → Json → NotificationTriggeredData → Decoded NotificationTriggeredData
set_notification name j d =
    if same_name name (text "notificationid")
    then decode_into (λ s. record d { notification_id = s })
        (decode_string (string_place (text "NotificationTriggeredData") (text "notificationId")) j
          d.notification_id)
    else if same_name name (text "recipientid")
    then decode_into (λ s. record d { recipient_id = s })
        (decode_string (string_place (text "NotificationTriggeredData") (text "recipientId")) j
          d.recipient_id)
    else if same_name name (text "channel")
    then decode_into (λ s. record d { channel = s })
        (decode_string (string_place (text "NotificationTriggeredData") (text "channel")) j
          d.channel)
    else if same_name name (text "templateid")
    then decode_into (λ s. record d { template_id = s })
        (decode_string (string_place (text "NotificationTriggeredData") (text "templateId")) j
          d.template_id)
    else if same_name name (text "payload")
    then decoded (record d { payload = some j })
    else decoded d

-- The bytes of an event's data.
abbrev pub data_bytes : Option Json → Payload
data_bytes none = Payload.absent
data_bytes (some j) = Payload.json j

unfoldable pub unmarshal_visit : Option Json → Decoded VisitApprovedData
unmarshal_visit o =
    decode_struct set_visit (text "value of type processor.VisitApprovedData") zero_visit
      (data_bytes o)

unfoldable pub unmarshal_notification : Option Json → Decoded NotificationTriggeredData
unmarshal_notification o =
    decode_struct set_notification (text "value of type processor.NotificationTriggeredData")
      zero_notification (data_bytes o)

-- The end of both `Process` methods: an error of the decoding is a failed business validation.
unfoldable pub after_decode : {D : Type 0} → Text → Decoded D → Outcome
after_decode event_type (malformed problem) =
    returned
      (some (business_validation (text "invalid " ++ (event_type ++ (text " data: " ++ problem)))))
after_decode event_type (decoded d) = returned none

-- `VisitApprovedProcessor.Process`.
unfoldable pub process_visit_approved : Processor
process_visit_approved ctx e = after_decode (text "VISIT_APPROVED") (unmarshal_visit e.payload)

-- `NotificationTriggeredProcessor.Process`.
unfoldable pub process_notification_triggered : Processor
process_notification_triggered ctx e =
    after_decode (text "NOTIFICATION_TRIGGERED") (unmarshal_notification e.payload)
