-- ===== src/Middleware.antt =====
-- internal/middleware/pipeline.go: the chain around a processor.
use raider_worker.Metrics.{Metric, messages_processed, messages_received, messages_failed}
use raider_worker.Time.{Duration, Time}
use raider_worker.Event.Errors.{GoError, Result, ok, err, message}
use raider_worker.Event.Types.{
  Context, Outcome, Event, returned, Processor, panicked, enrich_context,
}
pub mod Claims
mod Tests
use raider_worker.Base.{
  Bool, List, Option, Text, [], false, if◌then◌else◌, leb_ℤ, none, some, text, true, ◌++◌, ◌+ℤ◌,
  ◌∷◌,
}
use raider_worker.Idempotency.{Store}

-- What `Execute` leaves: its error, the claims, the counters in order, and whether the processor
-- ran.
pub record Run (S : Type 0) : Type 0 where
  pub result : Option GoError
  pub claims : S
  pub metrics : List Metric
  pub ran : Bool

-- The earlier of the parent's deadline and the new one.
abbrev pub earlier : Option Time → Time → Time
earlier none t = t
earlier (some d) t = if leb_ℤ d t then d else t

-- `context.WithTimeout`, at the time `now`.
unfoldable pub with_timeout : Context → Duration → Time → Context
with_timeout ctx timeout now = record ctx {
  deadline = some (earlier ctx.deadline (now +ℤ timeout));
}

-- On an error of the store the pipeline goes on without a claim.
abbrev pub acquired : Result Bool → Bool
acquired (ok b) = b
acquired (err e) = true

-- `processingErr` after the function with the recover.
abbrev pub processing_err : Outcome → Option GoError
processing_err (returned e) = e
processing_err (panicked r) = some (message (text "panic: " ++ r))

-- The counter of the recover.
abbrev pub panic_metrics : Event → Outcome → List Metric
panic_metrics e (returned _) = []
panic_metrics e (panicked r) = messages_failed e.topic e.event_type e.tenant_id (text "panic") ∷ []

module _ (store : Store) where
  -- What follows the processor.
  unfoldable pub finish : Event → List Metric → Option GoError → store.State → Run store.State
  finish e metrics none s = record {
    result = none;
    claims = s;
    metrics = metrics ++ messages_processed e.topic e.event_type e.tenant_id ∷ [];
    ran = true;
  }
  finish e metrics (some x) s = record {
    result = some x;
    claims = (store.release e.event_id s).1;
    metrics =
        metrics ++ messages_failed e.topic e.event_type e.tenant_id (text "processing_error") ∷ [];
    ran = true;
  }

  unfoldable pub process :
      Duration → Context → Event → Processor → Time → List Metric → store.State → Run store.State
  unfolding with_timeout
  process timeout ctx e processor now metrics s =
      let outcome = processor (with_timeout ctx timeout now) e in
      finish e (metrics ++ panic_metrics e outcome) (processing_err outcome) s

  -- `Execute`.
  unfoldable pub execute :
      Duration → Context → Event → Text → Processor → Time → store.State → Run store.State
  execute timeout ctx e processor_name processor now s =
      let ctx' = enrich_context ctx e processor_name now in
      let received = messages_received e.topic e.tenant_id ∷ [] in
      let (reply, s') = store.try_acquire e.event_id s in
      if acquired reply
      then process timeout ctx' e processor now received s'
      else record { result = none; claims = s'; metrics = received; ran = false }
