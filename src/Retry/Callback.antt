-- ===== src/Retry/Callback.antt =====
-- The callback of a republication that Kafka refuses, against the removal at the end of `claim`.
use raider_worker.Json.{Payload, decoded}
use raider_worker.Event.Errors.{GoError, ok}
use raider_worker.Retry.Envelope.{RetryEnvelope, unmarshal_retry}
use raider_worker.Retry.Scheduler.{
  republished, claim_amid, hand_over, after_zrem, after_get, schedule, schedule_key, payload_key,
  unix, claim,
}
use raider_worker.Retry.ScheduleRedis.{ScheduleRedis}
use raider_worker.Time.{TimeText, Time, second}
use raider_worker.Base.{none, pos, some, suc, ℕ, ◌*◌, ◌+ℤ◌, ◌∙◌, ◌≡◌}
use raider_worker.Retry.Handover.{payload_key-other, schedule-inv, no_payload}
use raider_worker.Retry.RoundTrip.{IsSound, unmarshal-marshal_retry}

module _ ⦃times : TimeText⦄ (redis : ScheduleRedis) where
  -- The callback runs at `now`, for a refusal with the error given.
  abbrev pub callback_fails : Time → GoError → RetryEnvelope → redis.State → redis.State
  callback_fails now x env s = republished redis now env (some x) s

  -- The end of a claim whose callback puts the retry back on the schedule before the removal.
  overwritten :
      (now : Time) (env : RetryEnvelope) (x : GoError) (s : redis.State)
      → (schedule redis (record env { next_retry_after = now +ℤ pos (15 * second) }) s).0 ≡ none
      → let refused = callback_fails now x in
        (redis.del (payload_key env.event_id) (refused env s)).0 ≡ none
        → let s' = (hand_over redis refused env.event_id (decoded env) s).1 in
          (redis.score schedule_key env.event_id s' ≡ some (unix (now +ℤ pos (15 * second))))
          × ((claim redis env.event_id s').0 ≡ none)
  unfolding republished hand_over
  overwritten now env x s h d =
      let env' = record env { next_retry_after = now +ℤ pos (15 * second) } in
      let key = payload_key env.event_id in
      let s1 = (schedule redis env' s).1 in
      let (j, m, v, at) = schedule-inv redis env' s h in
      (
        redis.del_keeps key schedule_key env.event_id s1 (payload_key-other env.event_id) ∙ at,
        no_payload redis env.event_id (redis.del key s1).1 (redis.del_removes key s1 d),
      )

  -- A republication that Kafka refuses puts the retry back on the schedule. If its callback runs
  -- between the `Produce` and the `Del` of `claim`, that `Del` deletes the payload just written: at
  -- the end of the claim the retry is on the schedule, 15 seconds on, and a claim of it publishes
  -- nothing, since it has no payload. The calls of Redis are taken to succeed.
  pub early_callback_loses_retry :
      (now : Time) (env : RetryEnvelope) (x : GoError) (s : redis.State) (n : ℕ) (raw : Payload)
      → IsSound env
      → (schedule redis env s).0 ≡ none
      → let s1 = (schedule redis env s).1 in
        let s2 = (redis.zrem schedule_key env.event_id s1).1 in
        let refused = callback_fails now x in
        (redis.zrem schedule_key env.event_id s1).0 ≡ ok (suc n)
        → redis.get (payload_key env.event_id) s2 ≡ ok raw
        → (schedule redis (record env { next_retry_after = now +ℤ pos (15 * second) }) s2).0 ≡ none
        → (redis.del (payload_key env.event_id) (refused env s2)).0 ≡ none
        → let s3 = (claim_amid redis refused env.event_id s1).1 in
          (redis.score schedule_key env.event_id s3 ≡ some (unix (now +ℤ pos (15 * second))))
          × ((claim redis env.event_id s3).0 ≡ none)
  unfolding claim_amid after_zrem after_get
  early_callback_loses_retry now env x s n raw sound h z g again d =
      let (j, m, v, _) = schedule-inv redis env s h in
      let key = payload_key env.event_id in
      let s1 = (schedule redis env s).1 in
      let apart = payload_key-other env.event_id in
      let kept = redis.zrem_keeps schedule_key env.event_id key s1 apart in
      let read : raw ≡ Payload.json j = cc (redis.get_value key _ raw g, kept, v) in
      let u : unmarshal_retry raw ≡ decoded env = rw read (unmarshal-marshal_retry env j sound m) in
      rw (z, g, u) (overwritten now env x (redis.zrem schedule_key env.event_id s1).1 again d)
