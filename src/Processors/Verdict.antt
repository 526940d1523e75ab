-- ===== src/Processors/Verdict.antt =====
-- What becomes of an event whose data a processor cannot decode.
use raider_worker.Event.Errors.{here, business, GoError, error_text, business_validation}
use raider_worker.Event.Types.{Context, Event, Outcome, returned}
use raider_worker.Time.{TimeText, Time}
use raider_worker.Processors.{
  process_visit_approved, process_notification_triggered, unmarshal_visit, unmarshal_notification,
  after_decode,
}
use raider_worker.Consumer.Fallback.{route, final_is_dead}
use raider_worker.Json.{Payload, Decoded, decoded, malformed}
use raider_worker.Dlq as Dlq
use raider_worker.Base.{Text, none, refl, some, ℤ, ◌≡◌, text, ◌++◌}

module _ ⦃times : TimeText⦄ (max_retries : ℤ) where
  -- The verdict on an event's data, and where the consumer sends the event.
  abbrev pub Verdict : {D : Type 0} → Time → Event → Payload → Outcome → Decoded D → Type 0
  Verdict now e raw_value outcome (decoded x) = outcome ≡ returned none
  Verdict now e raw_value outcome (malformed problem) =
      (x : GoError) × (outcome ≡ returned (some x))
      × (route max_retries now e raw_value (some x)
          ≡ some (Dlq.publish now e raw_value (error_text x) e.retry_count))

  after_decode-Verdict :
      {D : Type 0} (event_type : Text) (now : Time) (e : Event) (raw_value : Payload)
      (d : Decoded D)
      → Verdict now e raw_value (after_decode event_type d) d
  unfolding after_decode
  after_decode-Verdict event_type now e raw_value (decoded x) = refl
  after_decode-Verdict event_type now e raw_value (malformed problem) =
      let x =
        business_validation (text "invalid " ++ (event_type ++ (text " data: " ++ problem))) in
      (x, refl, final_is_dead max_retries now e raw_value x (x, here x, business _))

  -- Both processors accept an event exactly when its data decodes; where it does not, the error is
  -- final, and the consumer sends the event to the dead letter queue whatever budget it has left.
  pub processors-Verdict :
      (ctx : Context) (now : Time) (e : Event) (raw_value : Payload)
      → Verdict now e raw_value (process_visit_approved ctx e) (unmarshal_visit e.payload)
        × Verdict now e raw_value
            (process_notification_triggered ctx e)
            (unmarshal_notification e.payload)
  unfolding process_visit_approved process_notification_triggered
  processors-Verdict ctx now e raw_value = (
    after_decode-Verdict _ now e raw_value (unmarshal_visit e.payload),
    after_decode-Verdict _ now e raw_value (unmarshal_notification e.payload),
  )
