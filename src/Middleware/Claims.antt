-- ===== src/Middleware/Claims.antt =====
-- The pipeline and the claims on event ids: who runs the processor, and what is left behind.
use raider_worker.Metrics.{messages_received, messages_failed, Metric}
use raider_worker.Event.Errors.{
  is_retriable, ok, as_invalid_envelope, GoError, as_business_validation, message,
}
use raider_worker.Event.Types.{Context, Event, Processor, Outcome, enrich_context, panicked}
use raider_worker.Time.{Duration, Time}
use raider_worker.Base.{
  Bool, Text, [], false, none, refl, some, text, true, ◌++◌, ◌∷◌, ◌≡◌, List, Option,
}
use raider_worker.Idempotency.{Store}
use raider_worker.Middleware.{
  acquired, processing_err, finish, process, execute, with_timeout, Duration, Context, Time, ok,
  messages_received,
}

module _ (store : Store) (timeout : Duration) (ctx : Context) (e : Event) (name : Text)
    (processor : Processor) (now : Time) where
  abbrev pub outcome : Outcome
  outcome = processor (with_timeout (enrich_context ctx e name now) timeout now) e

  -- The claim after a processor that ended with the error given, and, where it was released, after
  -- that reply of the release: a release that failed leaves it open whether the claim is there.
  abbrev pub ClaimAfter : store.State → Option GoError → Option GoError → Type 0
  ClaimAfter s none reply = store.claimed e.event_id s ≡ true
  ClaimAfter s (some x) none = store.claimed e.event_id s ≡ false
  ClaimAfter s (some x) (some y) = Unit {0}

  released :
      (x : GoError) (s : store.State) (reply : Option GoError)
      → (store.release e.event_id s).0 ≡ reply
      → ClaimAfter (store.release e.event_id s).1 (some x) reply
  released x s none h = store.release_frees e.event_id s h
  released x s (some y) h = tt

  finish_fresh :
      (metrics : List Metric) (o : Option GoError) (s : store.State)
      → store.claimed e.event_id s ≡ true
      → let run = finish store e metrics o s in
        (run.ran ≡ true)
        × (run.result ≡ o)
        × ClaimAfter run.claims run.result (store.release e.event_id s).0
  unfolding finish
  finish_fresh metrics none s c = (refl, refl, c)
  finish_fresh metrics (some y) s c = (refl, refl, released y s (store.release e.event_id s).0 refl)

  -- While the event's id is claimed, by a worker in flight, by a success or by one that died, every
  -- delivery that the store answers is dropped: the processor does not run, the claim stays, and
  -- the caller sees no error.
  pub claimed_is_dropped :
      (s : store.State) (b : Bool)
      → store.claimed e.event_id s ≡ true
      → (store.try_acquire e.event_id s).0 ≡ ok b
      → let run = execute store timeout ctx e name processor now s in
        (run.ran ≡ false) × (run.result ≡ none) × (run.claims ≡ s)
  unfolding execute
  claimed_is_dropped s true taken h =
      let fresh = (store.acquire_fresh e.event_id s h).0 in absurd (cc)
  claimed_is_dropped s false taken h = rw h (refl, refl, (store.acquire_taken e.event_id s h).1)

  -- With a fresh claim the processor runs once, and its verdict is the pipeline's: a success keeps
  -- the claim as the marker of the processed event, and a failure gives it back if the release
  -- does not fail.
  pub fresh_claim_runs :
      (s : store.State)
      → (store.try_acquire e.event_id s).0 ≡ ok true
      → let run = execute store timeout ctx e name processor now s in
        (run.ran ≡ true)
        × (run.result ≡ processing_err outcome)
        × ClaimAfter run.claims run.result
            (store.release e.event_id (store.try_acquire e.event_id s).1).0
  unfolding execute process
  fresh_claim_runs s h =
      rw h (finish_fresh _ (processing_err outcome) _ (store.acquire_fresh e.event_id s h).1)

  -- A panic of the processor does not leave the pipeline: it becomes a retriable error.
  pub panic_is_contained :
      (s : store.State) (reason : Text)
      → acquired (store.try_acquire e.event_id s).0 ≡ true
      → outcome ≡ panicked reason
      → let run = execute store timeout ctx e name processor now s in
        (run.result ≡ some (message (text "panic: " ++ reason)))
        × (is_retriable run.result ≡ true)
        × (run.metrics
            ≡ messages_received e.topic e.tenant_id
              ∷ messages_failed e.topic e.event_type e.tenant_id (text "panic")
              ∷ messages_failed e.topic e.event_type e.tenant_id (text "processing_error")
              ∷ [])
  unfolding execute process finish is_retriable as_invalid_envelope as_business_validation
  panic_is_contained s reason h p = rw (h, p) (refl, refl, refl)
