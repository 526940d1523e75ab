-- ===== src/Retry/Waiting.antt =====
-- A tick before a retry is due leaves it where it is.
use mathlib.Core.Option.{some-injective}
use raider_worker.Retry.Envelope.{RetryEnvelope, unmarshal_retry}
use raider_worker.Event.Errors.{Result, err, ok}
use raider_worker.Json.{Decoded, Payload, malformed, decoded}
use raider_worker.Retry.ScheduleRedis.{ScheduleRedis}
use raider_worker.Time.{TimeText, Time}
use raider_worker.Retry.Scheduler.{
  payload_key, hand_over, schedule_key, claim_all, after_get, tick, after_zrem, claim, unix,
  claim_amid, undisturbed, schedule, claim_due,
}
use raider_worker.Base.{
  List, Text, [], ap, arith, bool_eq, elem, false, int_eq, list_eq, nat_eq, pos, refl, some, suc,
  unit_eq, zero, ℕ, ℤ, ◌<ℤ◌, ◌∙◌, ◌∷◌, ◌≡◌, ◌≢◌, Bool-cases, inl, inr, ne_of_==, none, sym, subst,
  ◌≤ℤ◌,
}
use raider_worker.Retry.Handover.{payload_key-other, schedule-inv}

without_prefix : ℕ → Text → Text
without_prefix zero s = s
without_prefix (suc n) [] = []
without_prefix (suc n) (c ∷ s) = without_prefix n s

-- Two ids have one payload key only if they are the same.
payload_key-injective : (a b : Text) → payload_key a ≡ payload_key b → a ≡ b
unfolding payload_key without_prefix
payload_key-injective a b h = ap (without_prefix 14) h

module _ ⦃times : TimeText⦄ (redis : ScheduleRedis) (event_id : Text) where
  -- The retry's place on the schedule and its payload are what they were.
  Kept : redis.State → redis.State → Type 0
  Kept s t =
      (redis.score schedule_key event_id t ≡ redis.score schedule_key event_id s)
      × (redis.value (payload_key event_id) t ≡ redis.value (payload_key event_id) s)

  Kept-trans : (s t u : redis.State) → Kept s t → Kept t u → Kept s u
  unfolding Kept
  Kept-trans s t u p q = (q.0 ∙ p.0, q.1 ∙ p.1)

  module _ (id : Text) (apart : id ≢ event_id) where
    hand_over-Kept :
        (d : Decoded RetryEnvelope) (s : redis.State)
        → Kept s (hand_over redis (undisturbed redis) id d s).1
    unfolding Kept hand_over
    hand_over-Kept (malformed problem) s = (refl, refl)
    hand_over-Kept (decoded env) s = (
      redis.del_keeps (payload_key id) schedule_key event_id s (payload_key-other id),
      redis.del_keeps_others (payload_key id) (payload_key event_id) s
          (λ h. apart (payload_key-injective id event_id h)),
    )

    after_get-Kept :
        (g : Result Payload) (s : redis.State)
        → Kept s (after_get redis (undisturbed redis) id g s).1
    unfolding Kept after_get
    after_get-Kept (err x) s = (refl, refl)
    after_get-Kept (ok raw) s = hand_over-Kept (unmarshal_retry raw) s

    after_zrem-Kept :
        (r : Result ℕ) (s : redis.State) → Kept s (after_zrem redis (undisturbed redis) id r s).1
    unfolding Kept after_zrem
    after_zrem-Kept (err x) s = (refl, refl)
    after_zrem-Kept (ok zero) s = (refl, refl)
    after_zrem-Kept (ok (suc n)) s = after_get-Kept (redis.get (payload_key id) s) s

    -- A claim of another retry.
    claim-Kept : (s : redis.State) → Kept s (claim redis id s).1
    unfolding Kept claim claim_amid
    claim-Kept s =
        let (reply, s') = redis.zrem schedule_key id s in
        Kept-trans s s' _
          (
            redis.zrem_keeps_others schedule_key id event_id s apart,
            redis.zrem_keeps schedule_key id (payload_key event_id) s (payload_key-other event_id),
          )
          (after_zrem-Kept reply s')

  claim_all-Kept :
      (due : List Text) (s : redis.State)
      → elem event_id due ≡ false
      → Kept s (claim_all redis due s).1
  unfolding Kept claim_all
  claim_all-Kept [] s h = (refl, refl)
  claim_all-Kept (id ∷ due) s h =
      let s1 = (claim redis id s).1 in
      Kept-trans s s1 _ (claim-Kept id (ne_of_== id event_id (ground (arith, h))) s)
        (claim_all-Kept due s1 (ground (arith, h)))

  -- What a tick before the retry's time claims.
  record Untouched (now : Time) (s : redis.State) : Type 0 where
    due : List Text
    not_due : elem event_id due ≡ false
    claims_due : tick redis now s ≡ claim_all redis due s

  tick-Untouched :
      (now : Time) (s : redis.State) (at : ℤ)
      → redis.score schedule_key event_id s ≡ some at
      → unix now <ℤ at
      → Untouched now s
  unfolding tick
  tick-Untouched now s at scored early =
      from_reply (redis.range_by_score schedule_key (pos 0) (unix now) 500 s) refl
    where
      from_reply :
          (r : Result (List Text))
          → redis.range_by_score schedule_key (pos 0) (unix now) 500 s ≡ r
          → Untouched now s
      from_reply (err x) e = record {
        due = [];
        not_due = refl;
        claims_due = rw e (unfold claim_due claim_all in refl);
      }
      from_reply (ok due) e = elim (Bool-cases (elem event_id due)) [
        | inr absent ↦ record {
          due = due;
          not_due = absent;
          claims_due = rw e (unfold claim_due in refl);
        }
        | inl present ↦
            let (at', found, low, high) = redis.range_within _ _ _ _ _ due event_id e present in
            let same : at' ≡ at = some-injective _ _ (sym found ∙ scored) in
            let late : at ≤ℤ unix now = subst (λ t. t ≤ℤ unix now) same high in
            absurd (omega (arith, early, late))
      ]

module _ ⦃times : TimeText⦄ (redis : ScheduleRedis) where
  -- A backoff is not cut short, but for the rest of a second: once a retry is scheduled, a tick in a
  -- second before that of its `nextRetryAfter` claims other ids only, and leaves the retry on the
  -- schedule, at its time and with its payload.
  pub waits_for_backoff :
      (env : RetryEnvelope) (s : redis.State) (now : Time)
      → (schedule redis env s).0 ≡ none
      → unix now <ℤ unix env.next_retry_after
      → let s1 = (schedule redis env s).1 in
        let s2 = (tick redis now s1).1 in
        ((due : List Text) × (elem env.event_id due ≡ false)
          × (tick redis now s1 ≡ claim_all redis due s1))
        × (redis.score schedule_key env.event_id s2 ≡ some (unix env.next_retry_after))
        × (redis.value (payload_key env.event_id) s2 ≡ redis.value (payload_key env.event_id) s1)
  unfolding Kept
  waits_for_backoff env s now h early =
      let s1 = (schedule redis env s).1 in
      let (j, m, v, scored) = schedule-inv redis env s h in
      let u = tick-Untouched redis env.event_id now s1 _ scored early in
      let kept = claim_all-Kept redis env.event_id u.due s1 u.not_due in
      (
        (u.due, u.not_due, u.claims_due),
        ap (λ r. redis.score schedule_key env.event_id r.1) u.claims_due ∙ kept.0 ∙ scored,
        ap (λ r. redis.value (payload_key env.event_id) r.1) u.claims_due ∙ kept.1,
      )
