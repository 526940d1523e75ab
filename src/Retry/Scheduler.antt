-- ===== src/Retry/Scheduler.antt =====
-- `Scheduler` of internal/retry/scheduler.go: retries kept in Redis until they are due, and their
-- publication to the original topic.
use raider_worker.Json.{Decoded, Payload, malformed, Json, Members, decoded}
use raider_worker.Event.Errors.{GoError, Result, err, message, ok, wrapped}
use raider_worker.Kafka.{Publication, produce}
use raider_worker.Retry.ScheduleRedis.{ScheduleRedis}
use raider_worker.Retry.Envelope.{RetryEnvelope, marshal_retry, unmarshal_retry, raw_json}
use raider_worker.Time.{TimeText, second, Time}
use raider_worker.Base.{
  List, Option, Text, [], negsuc, none, pos, some, suc, text, zero, ℕ, ℤ, ◌*◌, ◌++◌, ◌+ℤ◌, ◌/◌,
  ◌>>=◌, ◌∷◌,
}

abbrev pub schedule_key : Text
schedule_key = text "retry:schedule"

unfoldable pub payload_key : Text → Text
payload_key event_id = text "retry:payload:" ++ event_id

-- 24 hours, in nanoseconds.
abbrev pub payload_ttl : ℕ
payload_ttl = 24 * 3600 * second

-- `Time.Unix`: whole seconds, rounded down.
abbrev pub unix : Time → ℤ
unix (pos n) = pos (n / second)
unix (negsuc n) = negsuc (n / second)

-- What the loop of `Run` may receive; a tick comes at a time.
pub data Wake : Type 0 where
  ctx_done stopped : Wake
  ticked : Time → Wake

-- The object of `republishEnvelope` whose times have the given texts.
abbrev pub republish_object : RetryEnvelope → Text → Text → Json
republish_object env timestamp first_failure = Json.obj (
    Members.member (text "version") (Json.int env.version) (
      Members.member (text "eventId") (Json.str env.event_id) (
        Members.member (text "eventType") (Json.str env.event_type) (
          Members.member (text "tenantId") (Json.str env.tenant_id) (
            Members.member (text "timestamp") (Json.str timestamp) (
              Members.member (text "data") (raw_json env.payload) (
                Members.member (text "retryCount") (Json.int env.retry_count) (
                  Members.member (text "failureReason") (Json.str env.failure_reason) (
                    Members.member (text "firstFailureTime") (Json.str first_failure)
                      Members.end)))))))))

module _ ⦃times : TimeText⦄ where
  -- `json.Marshal(out)` of `republish`.
  unfoldable pub marshal_republish : RetryEnvelope → Option Json
  marshal_republish env = do
    timestamp ← times.format env.timestamp
    first_failure ← times.format env.first_failure_time
    some (republish_object env timestamp first_failure)

  -- `republish`, up to its `Produce`.
  unfoldable pub republish : RetryEnvelope → Publication
  republish env = produce env.original_topic env.tenant_id (marshal_republish env)

  module _ (redis : ScheduleRedis) where
    unfoldable pub persist :
        RetryEnvelope → Option Json → redis.State → Option GoError × redis.State
    persist env none s = (
      some (
          wrapped (text "marshal retry envelope: ") (
            message (
              text
                "json: error calling MarshalJSON for type time.Time: Time.MarshalJSON: year outside of range [0,9999]"))),
      s,
    )
    persist env (some j) s =
        redis.set_and_add (payload_key env.event_id) (Payload.json j) payload_ttl schedule_key
          (unix env.next_retry_after) env.event_id s

    -- `Schedule`.
    unfoldable pub schedule : RetryEnvelope → redis.State → Option GoError × redis.State
    schedule env s = persist env (marshal_retry env) s

    -- The end of `claim`: what it publishes, and then the payload's removal, whose error is
    -- dropped. `meanwhile` is what other goroutines do to Redis between the two, the callback of the
    -- `Produce` among them.
    unfoldable pub hand_over :
        (RetryEnvelope → redis.State → redis.State)
        → Text
        → Decoded RetryEnvelope
        → redis.State
        → Option Publication × redis.State
    hand_over meanwhile event_id (malformed problem) s = (none, s)
    hand_over meanwhile event_id (decoded env) s =
        (some (republish env), (redis.del (payload_key event_id) (meanwhile env s)).1)

    unfoldable pub after_get :
        (RetryEnvelope → redis.State → redis.State)
        → Text
        → Result Payload
        → redis.State
        → Option Publication × redis.State
    after_get meanwhile event_id (err x) s = (none, s)
    after_get meanwhile event_id (ok raw) s = hand_over meanwhile event_id (unmarshal_retry raw) s

    unfoldable pub after_zrem :
        (RetryEnvelope → redis.State → redis.State)
        → Text
        → Result ℕ
        → redis.State
        → Option Publication × redis.State
    after_zrem meanwhile event_id (err x) s = (none, s)
    after_zrem meanwhile event_id (ok zero) s = (none, s)
    after_zrem meanwhile event_id (ok (suc n)) s =
        after_get meanwhile event_id (redis.get (payload_key event_id) s) s

    -- `claim`, with what happens between its `Produce` and its `Del`.
    unfoldable pub claim_amid :
        (RetryEnvelope → redis.State → redis.State)
        → Text
        → redis.State
        → Option Publication × redis.State
    claim_amid meanwhile event_id s =
        let (removed, s') = redis.zrem schedule_key event_id s in
        after_zrem meanwhile event_id removed s'

    abbrev pub undisturbed : RetryEnvelope → redis.State → redis.State
    undisturbed env s = s

    -- `claim`, with nothing between.
    unfoldable pub claim : Text → redis.State → Option Publication × redis.State
    unfolding claim_amid
    claim event_id s = claim_amid undisturbed event_id s

    abbrev pub with_first : Option Publication → List Publication → List Publication
    with_first none ps = ps
    with_first (some p) ps = p ∷ ps

    unfoldable pub claim_all : List Text → redis.State → List Publication × redis.State
    claim_all [] s = ([], s)
    claim_all (event_id ∷ ids) s =
        let (p, s1) = claim event_id s in let (ps, s2) = claim_all ids s1 in (with_first p ps, s2)

    unfoldable pub claim_due : Result (List Text) → redis.State → List Publication × redis.State
    claim_due (err x) s = ([], s)
    claim_due (ok due) s = claim_all due s

    -- `tick`, at the time `now`.
    unfoldable pub tick : Time → redis.State → List Publication × redis.State
    tick now s = claim_due (redis.range_by_score schedule_key (pos 0) (unix now) 500 s) s

    -- `Run`: what its ticks publish until the context is done or `Stop` is called.
    unfoldable pub run : List Wake → redis.State → List Publication × redis.State
    run [] s = ([], s)
    run (ctx_done ∷ later) s = ([], s)
    run (stopped ∷ later) s = ([], s)
    run (ticked now ∷ later) s =
        let (ps, s1) = tick now s in let (qs, s2) = run later s1 in (ps ++ qs, s2)

    -- The callback of the `Produce` of `republish`, at the time `now`.
    unfoldable pub republished : Time → RetryEnvelope → Option GoError → redis.State → redis.State
    republished now env none s = s
    republished now env (some produce_err) s =
        (schedule (record env { next_retry_after = now +ℤ pos (15 * second) }) s).1
