-- ===== src/Consumer/Fallback.antt =====
-- `processWithFallback` of internal/consumer/consumer.go: the pipeline, and where its error goes.
use raider_worker.Event.Validation.{is_retriable_exact}
use raider_worker.Event.Errors.{GoError, is_retriable, FinalIn, error_text}
use raider_worker.Event.Types.{Event, Context, Processor}
use raider_worker.Idempotency.{Store}
use raider_worker.Time.{TimeText, Time, Duration}
use raider_worker.Middleware.{Run, execute}
use raider_worker.Retry.Publisher.{should_retry}
use raider_worker.Kafka.{Publication}
use raider_worker.Json.{Payload}
use raider_worker.Retry.Publisher as RetryPublisher
use raider_worker.Dlq as Dlq
use raider_worker.Base.{
  Text, Option, if◌then◌else◌, none, some, ℤ, ◌&&◌, ◌<ℤ◌, ◌≡◌, ◌≤ℤ◌, Bool-cases, arith, false, inl,
  inr, true, ◌⊎◌,
}

-- The error that it returns, and what it publishes.
pub record Fallback (S : Type 0) : Type 0 where
  pub run : Run S
  pub published : Option Publication

budget_used : (max n : ℤ) → should_retry max n ≡ false → max ≤ℤ n
unfolding should_retry
budget_used max n h = ground arith

budget_left : (max n : ℤ) → should_retry max n ≡ true → n <ℤ max
unfolding should_retry
budget_left max n h = ground arith

module _ ⦃times : TimeText⦄ (max_retries : ℤ) where
  -- The end of it, for the pipeline's error.
  unfoldable pub route : Time → Event → Payload → Option GoError → Option Publication
  route now e raw_value none = none
  route now e raw_value (some x) =
      if is_retriable (some x) && should_retry max_retries e.retry_count
      then some (RetryPublisher.publish now e (error_text x))
      else some (Dlq.publish now e raw_value (error_text x) e.retry_count)

  module _ (store : Store) where
    -- `processWithFallback`; the clock reads `now` throughout.
    unfoldable pub process_with_fallback :
        Duration
        → Context
        → Event
        → Payload
        → Text
        → Processor
        → Time
        → store.State
        → Fallback store.State
    process_with_fallback timeout ctx e raw_value processor_name processor now s =
        let run = execute store timeout ctx e processor_name processor now s in
        record { run = run; published = route now e raw_value run.result }

  -- A final error sends the event to the dead letter queue, with the retry count it came with.
  pub final_is_dead :
      (now : Time) (e : Event) (raw_value : Payload) (x : GoError)
      → FinalIn x
      → route now e raw_value (some x)
        ≡ some (Dlq.publish now e raw_value (error_text x) e.retry_count)
  unfolding route
  final_is_dead now e raw_value x f = rw ((is_retriable_exact x).1 f)

  -- Where an event goes whose processing failed. A final error, and a used-up budget, send it to the
  -- dead letter queue, with the retry count it came with; any other error, with budget left, sends it
  -- to the retry topic.
  pub route_exact :
      (now : Time) (e : Event) (raw_value : Payload) (x : GoError)
      → (FinalIn x
          × (route now e raw_value (some x)
              ≡ some (Dlq.publish now e raw_value (error_text x) e.retry_count)))
        ⊎ (¬ FinalIn x
            × (max_retries ≤ℤ e.retry_count)
            × (route now e raw_value (some x)
                ≡ some (Dlq.publish now e raw_value (error_text x) e.retry_count)))
        ⊎ (¬ FinalIn x
            × (e.retry_count <ℤ max_retries)
            × (route now e raw_value (some x) ≡ some (RetryPublisher.publish now e (error_text x))))
  unfolding route
  route_exact now e raw_value x = elim (Bool-cases (is_retriable (some x))) [
    | inr final ↦ inl ((is_retriable_exact x).0 final, rw final)
    | inl retriable ↦
        let open_error : ¬ FinalIn x = λ f. let final = (is_retriable_exact x).1 f in absurd (cc) in
        elim (Bool-cases (should_retry max_retries e.retry_count)) [
          | inl left ↦
              inr
                (inr (open_error, budget_left max_retries e.retry_count left, rw (retriable, left)))
          | inr used ↦
              inr
                (inl (open_error, budget_used max_retries e.retry_count used, rw (retriable, used)))
        ]
  ]
