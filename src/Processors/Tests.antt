-- ===== src/Processors/Tests.antt =====
-- A run of both processors on the sample event.
use raider_worker.Processors.{
  process_visit_approved, unmarshal_visit, process_notification_triggered, unmarshal_notification,
}
use raider_worker.Samples.Messages.{case_event, case_message, background}
use raider_worker.Samples.Clock.{sample_times}
use raider_worker.Processors.Verdict.{Verdict, processors-Verdict}
use raider_worker.Base.{pos}

processors-Verdict_example :
    Verdict
      (pos 5)
      (pos 9)
      case_event
      case_message.value
      (process_visit_approved background case_event)
      (unmarshal_visit case_event.payload)
    × Verdict
        (pos 5)
        (pos 9)
        case_event
        case_message.value
        (process_notification_triggered background case_event)
        (unmarshal_notification case_event.payload)
processors-Verdict_example =
    processors-Verdict (pos 5) background (pos 9) case_event case_message.value
