-- ===== src/Retry/Handover.antt =====
-- The scheduler's contract: what is due, who claims it, and what a claim publishes.
use raider_worker.Kafka.{Publication}
use raider_worker.Retry.RoundTrip.{IsSound, unmarshal-marshal_retry}
use raider_worker.Event.Errors.{ok, Result, err}
use raider_worker.Retry.Envelope.{RetryEnvelope, marshal_retry, unmarshal_retry}
use raider_worker.Retry.ScheduleRedis.{ScheduleRedis}
use raider_worker.Retry.Scheduler.{
  payload_key, schedule_key, schedule, claim, after_zrem, unix, after_get, persist, hand_over,
  republish, claim_amid, undisturbed,
}
use raider_worker.Time.{TimeText}
use raider_worker.Json.{Payload, Json, decoded, Decoded, malformed}
use raider_worker.Base.{
  Text, Option, bool_eq, int_eq, list_eq, nat_eq, none, refl, some, suc, unit_eq, ℕ, ◌≡◌, ◌≢◌, ◌∙◌,
  [], ap, arith, zero, ◌∷◌,
}

byte_at : Text → ℕ → ℕ
byte_at [] i = 0
byte_at (c ∷ s) zero = c
byte_at (c ∷ s) (suc i) = byte_at s i

-- The two names differ from their seventh byte on.
pub payload_key-other : (event_id : Text) → payload_key event_id ≢ schedule_key
unfolding payload_key byte_at
payload_key-other event_id h =
    let differ : 112 ≡ 115 = ap (λ k. byte_at k 6) h in absurd (omega (arith, differ))

module _ ⦃times : TimeText⦄ (redis : ScheduleRedis) where
  -- What a successful `Schedule` leaves behind.
  pub schedule-inv :
      (env : RetryEnvelope) (s : redis.State)
      → (schedule redis env s).0 ≡ none
      → (j : Json) × (marshal_retry env ≡ some j)
        × (redis.value (payload_key env.event_id) (schedule redis env s).1 ≡ some (Payload.json j))
        × (redis.score schedule_key env.event_id (schedule redis env s).1
            ≡ some (unix env.next_retry_after))
  unfolding schedule
  schedule-inv env s h = from_json (marshal_retry env) refl h
    where
      from_json :
          (o : Option Json)
          → marshal_retry env ≡ o
          → (persist redis env o s).0 ≡ none
          → (j : Json) × (marshal_retry env ≡ some j)
            × (redis.value (payload_key env.event_id) (persist redis env o s).1
                ≡ some (Payload.json j))
            × (redis.score schedule_key env.event_id (persist redis env o s).1
                ≡ some (unix env.next_retry_after))
      from_json none m h = unfold persist in absurd (cc)
      from_json (some j) m h =
          unfold persist in let (v, at) = redis.exec_sets _ _ _ _ _ _ s h in (j, m, v, at)

  -- What was scheduled is what is published: a claim that Redis answers publishes the envelope to
  -- its original topic, and takes it off the schedule.
  pub claim-schedule :
      (env : RetryEnvelope) (s : redis.State) (n : ℕ) (raw : Payload)
      → IsSound env
      → (schedule redis env s).0 ≡ none
      → let s1 = (schedule redis env s).1 in
        (redis.zrem schedule_key env.event_id s1).0 ≡ ok (suc n)
        → redis.get (payload_key env.event_id) (redis.zrem schedule_key env.event_id s1).1 ≡ ok raw
        → ((claim redis env.event_id s1).0 ≡ some (republish env))
          × (redis.score schedule_key env.event_id (claim redis env.event_id s1).1 ≡ none)
  unfolding claim claim_amid after_zrem after_get hand_over
  claim-schedule env s n raw sound h z g =
      let (j, m, v, _) = schedule-inv env s h in
      let key = payload_key env.event_id in
      let apart = payload_key-other env.event_id in
      let kept = redis.zrem_keeps schedule_key env.event_id key (schedule redis env s).1 apart in
      let read : raw ≡ Payload.json j = cc (redis.get_value key _ raw g, kept, v) in
      let u : unmarshal_retry raw ≡ decoded env = rw read (unmarshal-marshal_retry env j sound m) in
      rw (z, g, u)
        (
          refl,
          redis.del_keeps key schedule_key env.event_id _ apart
              ∙ redis.zrem_removes schedule_key env.event_id (schedule redis env s).1 (suc n) z,
        )

  hand_over-off :
      (event_id : Text) (d : Decoded RetryEnvelope) (s : redis.State)
      → redis.score schedule_key event_id s ≡ none
      → redis.score schedule_key event_id (hand_over redis (undisturbed redis) event_id d s).1
        ≡ none
  unfolding hand_over
  hand_over-off event_id (malformed problem) s off = off
  hand_over-off event_id (decoded env) s off =
      redis.del_keeps (payload_key event_id) schedule_key event_id s (payload_key-other event_id)
      ∙ off

  after_get-off :
      (event_id : Text) (g : Result Payload) (s : redis.State)
      → redis.score schedule_key event_id s ≡ none
      → redis.score schedule_key event_id (after_get redis (undisturbed redis) event_id g s).1
        ≡ none
  unfolding after_get
  after_get-off event_id (err x) s off = off
  after_get-off event_id (ok raw) s off = hand_over-off event_id (unmarshal_retry raw) s off

  claimed_is_off :
      (event_id : Text) (s : redis.State) (p : Publication)
      → (claim redis event_id s).0 ≡ some p
      → redis.score schedule_key event_id (claim redis event_id s).1 ≡ none
  unfolding claim claim_amid after_zrem
  claimed_is_off event_id s p h = from_reply (redis.zrem schedule_key event_id s).0 refl h
    where
      from_reply :
          (r : Result ℕ)
          → (redis.zrem schedule_key event_id s).0 ≡ r
          → (after_zrem redis
              (undisturbed redis)
              event_id
              r
              (redis.zrem schedule_key event_id s).1).0
            ≡ some p
          → redis.score schedule_key event_id
              (after_zrem redis
                (undisturbed redis)
                event_id
                r
                (redis.zrem schedule_key event_id s).1).1
            ≡ none
      from_reply (err x) z h = absurd (cc)
      from_reply (ok zero) z h = absurd (cc)
      from_reply (ok (suc n)) z h =
          after_get-off event_id _ _ (redis.zrem_removes schedule_key event_id s (suc n) z)

  nothing_removed :
      (event_id : Text) (s : redis.State)
      → (redis.zrem schedule_key event_id s).0 ≡ ok 0
      → (redis.zrem schedule_key event_id s).1 ≡ s
      → ((claim redis event_id s).0 ≡ none) × ((claim redis event_id s).1 ≡ s)
  unfolding claim claim_amid after_zrem
  nothing_removed event_id s z same = rw z (refl, same)

  -- Once an instance has taken a retry off the schedule, no other instance publishes it: a claim
  -- that Redis answers after a claim that published does nothing.
  pub claimed_once :
      (event_id : Text) (s : redis.State) (p : Publication) (n : ℕ)
      → (claim redis event_id s).0 ≡ some p
      → (redis.zrem schedule_key event_id (claim redis event_id s).1).0 ≡ ok n
      → ((claim redis event_id (claim redis event_id s).1).0 ≡ none)
        × ((claim redis event_id (claim redis event_id s).1).1 ≡ (claim redis event_id s).1)
  claimed_once event_id s p n h z =
      let gone = claimed_is_off event_id s p h in
      let (nothing, same) =
        redis.zrem_none schedule_key event_id (claim redis event_id s).1 n gone z in
      nothing_removed event_id (claim redis event_id s).1 (z ∙ ap ok nothing) same

  pub no_payload :
      (event_id : Text) (s : redis.State)
      → redis.value (payload_key event_id) s ≡ none
      → (claim redis event_id s).0 ≡ none
  unfolding claim claim_amid after_zrem after_get
  no_payload event_id s empty = from_reply (redis.zrem schedule_key event_id s).0
    where
      key : Text
      key = payload_key event_id

      taken : redis.State
      taken = (redis.zrem schedule_key event_id s).1

      from_get :
          (g : Result Payload)
          → redis.get key taken ≡ g
          → (after_get redis (undisturbed redis) event_id g taken).0 ≡ none
      from_get (err x) e = refl
      from_get (ok v) e =
          let held = redis.get_value key taken v e in
          let kept = redis.zrem_keeps schedule_key event_id key s (payload_key-other event_id) in
          absurd (cc)

      from_reply : (r : Result ℕ) → (after_zrem redis (undisturbed redis) event_id r taken).0 ≡ none
      from_reply (err x) = refl
      from_reply (ok zero) = refl
      from_reply (ok (suc n)) = from_get (redis.get key taken) refl
