-- ===== src/Consumer/Job.antt =====
-- The job that `dispatch` submits: the closure that a lane runs.
use raider_worker.Retry.Backoff.{count_fits_returns}
use raider_worker.Middleware.{Run, execute}
use raider_worker.Retry.Publisher.{should_retry}
use raider_worker.Json.{Payload, Json}
use raider_worker.Event.Types.{Context}
use raider_worker.Event.Errors.{GoError, error_text, is_retriable}
use raider_worker.Idempotency.{Store}
use raider_worker.Retry.ScheduleRedis.{ScheduleRedis}
use raider_worker.Kafka.{Publication, index_panic, not_marshalled, produced, produce}
use raider_worker.Time.{TimeText, Duration, Time}
use raider_worker.Consumer.Dispatch.{World, Work, place, complete_message}
use raider_worker.Consumer.Fallback.{process_with_fallback, route}
use raider_worker.OffsetManager.Manager as Offsets
use raider_worker.Retry.Publisher as RetryPublisher
use raider_worker.Dlq as Dlq
use raider_worker.Base.{
  List, Option, [], none, refl, some, ℤ, ◌++◌, ◌∷◌, ◌≡◌, ◌⊎◌, Bool-cases, inl, inr, ◌&&◌, Text,
  add64, pos, subst, sym, ◌<ℤ◌, ◌≤ℤ◌,
}

-- What `retry.Publish` and `dlq.Publish` were asked for.
abbrev pub add_publication : List Publication → Option Publication → List Publication
add_publication ps none = ps
add_publication ps (some p) = ps ++ p ∷ []

-- The world and the claims after a job that returns, and the job's error.
pub record JobEnd (redis : ScheduleRedis) (S : Type 0) : Type 0 where
  pub world : World redis
  pub claims : S
  pub result : Option GoError

-- How a job ends. No code recovers from a panic of `retry.Publish`: it ends the process.
pub data Ending (redis : ScheduleRedis) (S : Type 0) : Type 0 where
  job_panics : Ending redis S
  job_returns : JobEnd redis S → Ending redis S

-- The job's end, if its publication did not panic.
abbrev pub after_publication :
    {redis : ScheduleRedis} {S : Type 0} → Option Publication → JobEnd redis S → Ending redis S
after_publication none end = job_returns end
after_publication (some index_panic) end = job_panics
after_publication (some not_marshalled) end = job_returns end
after_publication (some (produced r)) end = job_returns end

-- A publication to a topic under a key: one record, or none where `json.Marshal` fails.
abbrev pub SentTo : Text → Text → Publication → Type 0
SentTo topic key p =
    (p ≡ not_marshalled)
    ⊎ ((v : Payload) × (p ≡ produced (record { topic = topic; key = key; value = v })))

-- What a job that returns publishes, for the error that it ends with.
abbrev pub Publishes :
    ⦃times : TimeText⦄ → Time → Work → List Publication → List Publication → Option GoError → Type 0
Publishes now work before after none = after ≡ before
Publishes now work before after (some x) =
    (p : Publication) × (after ≡ before ++ p ∷ [])
    × ((p ≡ RetryPublisher.publish now work.event (error_text x))
          × SentTo (RetryPublisher.retry_topic work.event.topic) work.event.tenant_id p
        ⊎ (p ≡ Dlq.publish now work.event work.raw_value (error_text x) work.event.retry_count)
          × SentTo (Dlq.dlq_topic work.event.topic) work.event.tenant_id p)

produce-SentTo : (topic key : Text) (o : Option Json) → SentTo topic key (produce topic key o)
produce-SentTo topic key none = inl refl
produce-SentTo topic key (some j) = inr (Payload.json j, refl)

module _ ⦃times : TimeText⦄ (redis : ScheduleRedis) (store : Store) (max_retries : ℤ)
    (timeout : Duration) where
  -- `Execute` of the job; its deferred `Complete` comes last, whatever the pipeline returns.
  unfoldable pub run_job :
      Context → Work → Time → World redis → store.State → Ending redis store.State
  run_job ctx work now w s =
      let f =
        process_with_fallback max_retries store timeout ctx work.event work.raw_value
          work.processor_name work.processor now s in
      after_publication f.published (record {
        world =
            complete_message redis work.source
              (record w { published = add_publication w.published f.published });
        claims = f.run.claims;
        result = f.run.result;
      })

  -- The run of the pipeline in the job.
  abbrev pub pipeline_run : Context → Work → Time → store.State → Run store.State
  pipeline_run ctx work now s =
      execute store timeout ctx work.event work.processor_name work.processor now s

  -- What holds at the end of a job.
  abbrev pub JobEnds :
      Work → Time → World redis → Run store.State → Ending redis store.State → Type 0
  JobEnds work now w run job_panics =
      (x : GoError) × (run.result ≡ some x)
      × (RetryPublisher.publish now work.event (error_text x) ≡ index_panic)
  JobEnds work now w run (job_returns end) =
      (end.world.offsets ≡ Offsets.complete (place work.source) work.source.offset w.offsets)
      × (end.world.pools ≡ w.pools)
      × (end.claims ≡ run.claims)
      × (end.result ≡ run.result)
      × Publishes now work w.published end.world.published run.result

  abbrev end_with :
      Work
      → World redis
      → store.State
      → Option Publication
      → Option GoError
      → JobEnd redis store.State
  end_with work w claims p result = record {
    world =
        complete_message redis work.source (record w { published = add_publication w.published p });
    claims = claims;
    result = result;
  }

  module _ (work : Work) (now : Time) (w : World redis) (run : Run store.State) where
    -- A publisher was called, and did not panic.
    sent :
        (x : GoError) (p : Publication)
        → run.result ≡ some x
        → (p ≡ RetryPublisher.publish now work.event (error_text x))
            × SentTo (RetryPublisher.retry_topic work.event.topic) work.event.tenant_id p
          ⊎ (p ≡ Dlq.publish now work.event work.raw_value (error_text x) work.event.retry_count)
            × SentTo (Dlq.dlq_topic work.event.topic) work.event.tenant_id p
        → JobEnds work now w run
            (after_publication (some p) (end_with work w run.claims (some p) run.result))
    unfolding complete_message
    sent x index_panic failed (inl (e, to)) = (x, failed, sym e)
    sent x index_panic failed (inr (e, inl bad)) = absurd (cc)
    sent x index_panic failed (inr (e, inr (v, bad))) = absurd (cc)
    sent x not_marshalled failed what = (
      refl,
      refl,
      refl,
      refl,
      subst (Publishes now work w.published _) (sym failed) (not_marshalled, refl, what),
    )
    sent x (produced r) failed what = (
      refl,
      refl,
      refl,
      refl,
      subst (Publishes now work w.published _) (sym failed) (produced r, refl, what),
    )

    retried :
        (x : GoError) (d : Option Duration)
        → run.result ≡ some x
        → RetryPublisher.publish now work.event (error_text x)
          ≡ RetryPublisher.publish_after now work.event (error_text x) d
        → let p = RetryPublisher.publish_after now work.event (error_text x) d in
          JobEnds work now w run
            (after_publication (some p) (end_with work w run.claims (some p) run.result))
    unfolding RetryPublisher.publish_after
    retried x none failed same = (x, failed, same)
    retried x (some d) failed same = sent x _ failed (inl (sym same, produce-SentTo _ _ _))

    routed :
        (o : Option GoError)
        → run.result ≡ o
        → let p = route max_retries now work.event work.raw_value o in
          JobEnds work now w run (after_publication p (end_with work w run.claims p run.result))
    unfolding route complete_message
    routed none nil =
        (refl, refl, refl, refl, subst (Publishes now work w.published _) (sym nil) refl)
    routed (some x) failed =
        elim (Bool-cases
          (is_retriable (some x) && should_retry max_retries work.event.retry_count)) [
            | inl again ↦ rw again (
                unfold RetryPublisher.publish in
                retried x (RetryPublisher.backoff (add64 work.event.retry_count (pos 1))) failed
                  refl)
            | inr dead ↦
                rw dead (sent x _ failed (inr (refl, unfold Dlq.publish in produce-SentTo _ _ _)))
          ]

  -- A job that returns has completed its own record, once, whatever the processor did: if the
  -- pipeline returns nil nothing is published, and otherwise one call of a publisher is made, which
  -- sends one record to the retry topic or to the dead letter topic of the event, or none where
  -- `json.Marshal` fails. A job panics only if `retry.Publish` does.
  pub job_ends :
      (ctx : Context) (work : Work) (now : Time) (w : World redis) (s : store.State)
      → JobEnds work now w (pipeline_run ctx work now s) (run_job ctx work now w s)
  unfolding run_job process_with_fallback
  job_ends ctx work now w s =
      let run = pipeline_run ctx work now s in routed work now w run run.result refl

  -- The same, of a job that is known to return.
  pub returned_job :
      (ctx : Context) (work : Work) (now : Time) (w : World redis) (s : store.State)
      (end : JobEnd redis store.State)
      → run_job ctx work now w s ≡ job_returns end
      → JobEnds work now w (pipeline_run ctx work now s) (job_returns end)
  returned_job ctx work now w s end returned =
      subst (JobEnds work now w (pipeline_run ctx work now s)) returned (job_ends ctx work now w s)

  ending_cases :
      (e : Ending redis store.State)
      → (e ≡ job_panics) ⊎ ((end : JobEnd redis store.State) × (e ≡ job_returns end))
  ending_cases job_panics = inl refl
  ending_cases (job_returns end) = inr (end, refl)

  -- A job returns, if its retry count is from 0 to below the largest int.
  pub job_returns_if :
      (ctx : Context) (work : Work) (now : Time) (w : World redis) (s : store.State)
      → pos 0 ≤ℤ work.event.retry_count
      → work.event.retry_count <ℤ pos 0x7fffffffffffffff
      → (end : JobEnd redis store.State) × (run_job ctx work now w s ≡ job_returns end)
  job_returns_if ctx work now w s low high = elim (ending_cases (run_job ctx work now w s)) [
    | inr returned ↦ returned
    | inl panicked ↦
        let (x, failed, bad) =
          subst (JobEnds work now w (pipeline_run ctx work now s)) panicked
            (job_ends ctx work now w s) in
        absurd (count_fits_returns now work.event (error_text x) low high bad)
  ]
