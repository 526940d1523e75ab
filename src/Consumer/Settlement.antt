-- ===== src/Consumer/Settlement.antt =====
-- Every way through `dispatch` ends with the record completed, or in the hands of a lane whose job
-- completes it.
use raider_worker.Retry.Scheduler.{schedule}
use raider_worker.Event.Errors.{ok, GoError, Result, err}
use raider_worker.Retry.Envelope.{RetryEnvelope, parse_retry_envelope}
use raider_worker.Kafka.{Publication}
use raider_worker.Event.Envelope.{parse_and_validate}
use raider_worker.Retry.ScheduleRedis.{ScheduleRedis}
use raider_worker.Event.Types.{RawMessage, Event, Processor}
use raider_worker.Time.{TimeText, Time}
use raider_worker.Consumer.Dispatch.{
  World, Work, dead_letter, after_retry_envelope, schedule_attempts, after_schedule,
  complete_message, after_pool, after_submit, returns, after_parse, after_resolve, dispatch,
  dispatch_retry,
}
use raider_worker.OffsetManager.Manager.{key_eq}
use raider_worker.WorkerPool.Pool.{Pool, Sending, sent, send_panics, waits_for_room}
use raider_worker.Registry as Registry
use raider_worker.Registry.{VersionKey}
use raider_worker.Base.{
  Map, bool_eq, insert, int_eq, list_eq, lookup, nat_eq, none, refl, some, unit_eq, ◌≡◌, Option,
  inl, suc, zero, ℕ, ◌⊎◌, ap, inr, subst, sym, Bool-cases, false, true,
}
use raider_worker.Consumer.Outcomes.{
  GivenUp, DeadLettered, Scheduled, Queued, not_parsed, not_resolved, no_pool, no_retry_envelope,
  not_scheduled, is_retry,
}

module _ ⦃times : TimeText⦄ (redis : ScheduleRedis) (processors : Map VersionKey Processor) where
  dead_letter-DeadLettered :
      (now : Time) (p : Publication) (raw : RawMessage) (w : World redis)
      → GivenUp redis processors now raw w p
      → DeadLettered redis processors now raw w (dead_letter redis p raw w)
  unfolding dead_letter
  dead_letter-DeadLettered now p raw w g = record {
    publication = p;
    reason = g;
    completed = record { offsets = refl; pools = refl };
    published = refl;
  }

  dead_end :
      (now : Time) (p : Publication) (raw : RawMessage) (w w' : World redis)
      → GivenUp redis processors now raw w p
      → returns (dead_letter redis p raw w) ≡ returns w'
      → DeadLettered redis processors now raw w w'
  dead_end now p raw w w' g h =
      subst (DeadLettered redis processors now raw w) (cc) (dead_letter-DeadLettered now p raw w g)

  module _ (now : Time) (raw : RawMessage) where
    -- Attempts that end well end with one that did.
    attempts-inv :
        (n : ℕ) (env : RetryEnvelope) (before : redis.State) (r : Option GoError × redis.State)
        → schedule redis env before ≡ r
        → (schedule_attempts redis n env r).0 ≡ none
        → (last : redis.State) × ((schedule redis env last).0 ≡ none)
          × ((schedule_attempts redis n env r).1 ≡ (schedule redis env last).1)
    unfolding schedule_attempts
    attempts-inv n env before (none, s) e h = (before, ap (λ r. r.0) e, sym (ap (λ r. r.1) e))
    attempts-inv zero env before (some x, s) e h = absurd (cc)
    attempts-inv (suc n) env before (some x, s) e h =
        attempts-inv n env s (schedule redis env s) refl h

    after_submit-ends :
        (w w' : World redis) (r : Sending Work)
        → after_submit redis raw.topic r w ≡ returns w'
        → (pool' : Pool Work) × (r ≡ sent pool')
          × (w' ≡ record w { pools = insert raw.topic pool' w.pools })
    unfolding after_submit
    after_submit-ends w w' send_panics h = absurd (cc)
    after_submit-ends w w' waits_for_room h = absurd (cc)
    after_submit-ends w w' (sent p) h = (p, refl, cc)

    module _ (retry : is_retry raw ≡ true) where
      after_schedule-ends :
          (env : RetryEnvelope) (w : World redis) (r : Option GoError × redis.State)
          → parse_retry_envelope raw.value ≡ ok env
          → (r.0 ≡ none
              → (last : redis.State) × ((schedule redis env last).0 ≡ none)
                × (r.1 ≡ (schedule redis env last).1))
          → ((x : GoError)
              → r.0 ≡ some x
              → (schedule_attempts redis 2 env (schedule redis env w.schedules)).0 ≡ some x)
          → DeadLettered redis processors now raw w (after_schedule redis now raw env r w)
            ⊎ Scheduled redis processors raw w (after_schedule redis now raw env r w)
      unfolding after_schedule complete_message dead_letter
      after_schedule-ends env w (none, s) e h bad =
          let (last, good, same) = h refl in
          inr (record {
            env = env;
            before = last;
            of_retry_topic = retry;
            completed = record { offsets = refl; pools = refl };
            parses = e;
            succeeds = good;
            schedules = same;
            published = refl;
          })
      after_schedule-ends env w (some x, s) e h bad = inl (record {
        publication = _;
        reason = not_scheduled env x retry e (bad x refl);
        completed = record { offsets = refl; pools = refl };
        published = refl;
      })

      after_retry_envelope-ends :
          (r : Result RetryEnvelope) (w : World redis)
          → parse_retry_envelope raw.value ≡ r
          → DeadLettered redis processors now raw w (after_retry_envelope redis now raw r w)
            ⊎ Scheduled redis processors raw w (after_retry_envelope redis now raw r w)
      unfolding after_retry_envelope
      after_retry_envelope-ends (err x) w e =
          inl (dead_letter-DeadLettered now _ raw w (no_retry_envelope x retry e))
      after_retry_envelope-ends (ok env) w e =
          after_schedule-ends env w _ e (attempts-inv 2 env w.schedules _ refl) (λ x h. h)

      retry_ends :
          (w w' : World redis)
          → returns (dispatch_retry redis now raw w) ≡ returns w'
          → DeadLettered redis processors now raw w w' ⊎ Scheduled redis processors raw w w'
      unfolding dispatch_retry
      retry_ends w w' h =
          subst
            (λ v. DeadLettered redis processors now raw w v ⊎ Scheduled redis processors raw w v)
            (cc) (after_retry_envelope-ends (parse_retry_envelope raw.value) w refl)

    module _ (main : is_retry raw ≡ false) where
      after_pool-ends :
          (e : Event) (processor : Processor) (o : Option (Pool Work)) (w w' : World redis)
          → parse_and_validate raw ≡ ok e
          → Registry.resolve e.event_type e.version processors ≡ ok processor
          → lookup raw.topic w.pools ≡ o
          → after_pool redis now raw e processor o w ≡ returns w'
          → DeadLettered redis processors now raw w w' ⊎ Queued redis processors raw w w'
      unfolding after_pool
      after_pool-ends e processor none w w' p r l h =
          inl (dead_end now _ raw w w' (no_pool e processor main p r l) h)
      after_pool-ends e processor (some pool) w w' p r l h =
          let (pool', s, same) = after_submit-ends w w' _ h in
          inr (record {
            e = e;
            processor = processor;
            pool = pool;
            pool' = pool';
            of_main_topic = main;
            parses = p;
            resolves = r;
            found = l;
            submits = s;
            same = same;
          })

      after_resolve-ends :
          (e : Event) (o : Result Processor) (w w' : World redis)
          → parse_and_validate raw ≡ ok e
          → Registry.resolve e.event_type e.version processors ≡ o
          → after_resolve redis now raw e o w ≡ returns w'
          → DeadLettered redis processors now raw w w' ⊎ Queued redis processors raw w w'
      unfolding after_resolve
      after_resolve-ends e (err x) w w' p r h =
          inl (dead_end now _ raw w w' (not_resolved e x main p r) h)
      after_resolve-ends e (ok processor) w w' p r h =
          after_pool-ends e processor (lookup raw.topic w.pools) w w' p r refl h

      after_parse-ends :
          (o : Result Event) (w w' : World redis)
          → parse_and_validate raw ≡ o
          → after_parse redis processors now raw o w ≡ returns w'
          → DeadLettered redis processors now raw w w' ⊎ Queued redis processors raw w w'
      unfolding after_parse
      after_parse-ends (err x) w w' p h = inl (dead_end now _ raw w w' (not_parsed x main p) h)
      after_parse-ends (ok e) w w' p h = after_resolve-ends e _ w w' p refl h

    -- A call of `dispatch` that returns has ended in one of three ways. It has called the dead
    -- letter publisher once and completed the record: for a topic that is no retry topic, with the raw
    -- message where it does not parse and with the event where no processor, or no pool, is found; for
    -- a retry topic, with the raw message where the retry envelope does not parse and with the event
    -- where three attempts to schedule have failed; each time with that reason. Or, for a retry topic,
    -- it has written the envelope to the schedule and completed the record. Or, for another topic, it
    -- has put one job into the lane of the event's affinity key and left the offsets alone.
    pub dispatch_ends :
        (w w' : World redis)
        → dispatch redis processors now raw w ≡ returns w'
        → DeadLettered redis processors now raw w w'
          ⊎ Scheduled redis processors raw w w'
          ⊎ Queued redis processors raw w w'
    unfolding dispatch
    dispatch_ends w w' h = elim (Bool-cases (is_retry raw)) [
      | inl retry ↦ elim (retry_ends retry w w' (rw retry at h)) [
        | inl dead ↦ inl dead
        | inr scheduled ↦ inr (inl scheduled)
      ]
      | inr main ↦ elim (after_parse-ends main (parse_and_validate raw) w w' refl (rw main at h)) [
        | inl dead ↦ inl dead
        | inr queued ↦ inr (inr queued)
      ]
    ]
