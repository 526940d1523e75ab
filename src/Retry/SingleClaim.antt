-- ===== src/Retry/SingleClaim.antt =====
-- However many instances run, a retry is republished no more often than it was scheduled.
use raider_worker.Retry.Handover.{payload_key-other}
use raider_worker.Json.{Payload, Json, Decoded, malformed, decoded}
use raider_worker.Event.Errors.{Result, err, ok}
use raider_worker.Retry.Envelope.{RetryEnvelope, marshal_retry, unmarshal_retry}
use raider_worker.Retry.Scheduler.{
  schedule, schedule_key, payload_key, persist, payload_ttl, unix, republish,
}
use raider_worker.Retry.ScheduleRedis.{ScheduleRedis}
use raider_worker.Time.{TimeText}
use raider_worker.Base.{
  Text, List, Option, [], ap, arith, bool_eq, count, if◌then◌else◌, int_eq, list_eq, nat_eq, none,
  refl, some, unit_eq, ℕ, ℤ, ◌+◌, ◌==◌, ◌≡◌, ◌≤◌, Bool-cases, Option-cases, eq_of_==, inl, inr,
  subst, suc, zero, ne_of_==, total, total-around, ◌++◌, ◌∙◌, ◌∷◌,
}
use raider_worker.Kafka.{Publication}
use raider_worker.Retry.Fleet.{
  Fleet, Instance, Claiming, free, has_taken, has_read, has_sent, Step, Reach, schedules, polls,
  claims, reads, sends, deletes, here, later, after_reply, after_read, after_decode,
}

-- 1 for an id that has a score.
abbrev pub mark : Option ℤ → ℕ
mark none = 0
mark (some at) = 1

mark_after : (o o' : Option ℤ) → (o ≡ none → o' ≡ none) → mark o' ≤ mark o
mark_after none o' h = rw (h refl) (omega arith)
mark_after (some at) none h = omega arith
mark_after (some at) (some at') h = omega arith

mark-le_one : (o : Option ℤ) → mark o ≤ 1
mark-le_one none = omega arith
mark-le_one (some at) = omega arith

module _ ⦃times : TimeText⦄ (redis : ScheduleRedis) (event_id : Text) where
  -- Whether the id is on the schedule.
  on_schedule : redis.State → ℕ
  on_schedule s = mark (redis.score schedule_key event_id s)

  persist-mark :
      (env : RetryEnvelope) (o : Option Json) (s : redis.State)
      → on_schedule (persist redis env o s).1
        ≤ (if env.event_id == event_id then 1 else 0) + on_schedule s
  unfolding on_schedule persist
  persist-mark env none s = omega arith
  persist-mark env (some j) s = elim (Bool-cases (env.event_id == event_id)) [
    | inl same ↦ rw same (omega (arith, mark-le_one (redis.score schedule_key event_id _)))
    | inr apart ↦ rw apart (
        omega (
          arith,
          mark_after (redis.score schedule_key event_id s) _ (
              redis.exec_adds_one (payload_key env.event_id) (Payload.json j) payload_ttl
                schedule_key (unix env.next_retry_after) env.event_id event_id s
                (ne_of_== env.event_id event_id apart)),
        ))
  ]

  schedule-mark :
      (env : RetryEnvelope) (s : redis.State)
      → on_schedule (schedule redis env s).1
        ≤ (if env.event_id == event_id then 1 else 0) + on_schedule s
  unfolding on_schedule schedule
  schedule-mark env s = persist-mark env (marshal_retry env) s

  -- A reply that removed an id found it on the schedule.
  was_on :
      (id : Text) (s : redis.State) (n : ℕ)
      → (redis.zrem schedule_key id s).0 ≡ ok (suc n)
      → mark (redis.score schedule_key id s) ≡ 1
  was_on id s n h = elim (Option-cases (redis.score schedule_key id s)) [
    | inl off ↦ absurd (omega (arith, (redis.zrem_none schedule_key id s (suc n) off h).0))
    | inr (at, on) ↦ rw on
  ]

  -- 1 for an instance that has taken the id and not republished it.
  abbrev holds : Claiming → ℕ
  holds free = 0
  holds (has_taken id) = if id == event_id then 1 else 0
  holds (has_read id env) = if id == event_id then 1 else 0
  holds (has_sent id) = 0

  abbrev instance_holds : Instance → ℕ
  instance_holds i = holds i.claiming

  -- How many instances hold the id.
  unfoldable pub holders : List Instance → ℕ
  holders instances = total instance_holds instances

  abbrev one_if_id : Text × Publication → ℕ
  one_if_id r = if r.0 == event_id then 1 else 0

  -- How often the id was republished.
  unfoldable pub times_republished : List (Text × Publication) → ℕ
  times_republished rs = total one_if_id rs

  reply-mark :
      (id : Text) (s : redis.State) (r : Result ℕ)
      → (redis.zrem schedule_key id s).0 ≡ r
      → holds (after_reply id r) + on_schedule (redis.zrem schedule_key id s).1 ≤ on_schedule s
  unfolding on_schedule after_reply
  reply-mark id s (err x) h =
      omega (arith, mark_after _ _ (redis.zrem_adds_none schedule_key id event_id s))
  reply-mark id s (ok zero) h =
      omega (arith, mark_after _ _ (redis.zrem_adds_none schedule_key id event_id s))
  reply-mark id s (ok (suc n)) h = elim (Bool-cases (id == event_id)) [
    | inl same ↦
        let is = eq_of_== id event_id same in
        let off = redis.zrem_removes schedule_key id s (suc n) h in
        rw same (
          omega (
            arith,
            ap mark (
                subst (λ i. redis.score schedule_key i (redis.zrem schedule_key id s).1 ≡ none) is
                  off),
            subst (λ i. mark (redis.score schedule_key i s) ≡ 1) is (was_on id s n h),
          ))
    | inr apart ↦
        rw apart (omega (arith, mark_after _ _ (redis.zrem_adds_none schedule_key id event_id s)))
  ]

  decode-holds :
      (id : Text) (d : Decoded RetryEnvelope) → holds (after_decode id d) ≤ holds (has_taken id)
  unfolding after_decode
  decode-holds id (malformed problem) = omega arith
  decode-holds id (decoded env) = omega arith

  read-holds : (id : Text) (r : Result Payload) → holds (after_read id r) ≤ holds (has_taken id)
  unfolding after_read
  read-holds id (err x) = omega arith
  read-holds id (ok raw) = decode-holds id (unmarshal_retry raw)

  holders-around :
      (is before after : List Instance) (due : List Text) (c : Claiming)
      → is ≡ before ++ (record { due = due; claiming = c }) ∷ after
      → holders is ≡ holders before + (holds c + holders after)
  unfolding holders
  holders-around is before after due c e =
      ap (total instance_holds) e ∙ total-around instance_holds before _ after

  republished-once :
      (id : Text) (env : RetryEnvelope) (rs : List (Text × Publication))
      → times_republished ((id, republish env) ∷ rs)
        ≡ holds (has_read id env) + times_republished rs
  unfolding times_republished total
  republished-once id env rs = refl

  deleted-mark :
      (id : Text) (s : redis.State) → on_schedule (redis.del (payload_key id) s).1 ≡ on_schedule s
  unfolding on_schedule
  deleted-mark id s =
      ap mark (redis.del_keeps (payload_key id) schedule_key event_id s (payload_key-other id))

  -- What each step keeps below the number of calls of `Schedule`.
  abbrev spent : Fleet redis → ℕ
  spent f = times_republished f.republished + (holders f.instances + on_schedule f.server)

  step_bound :
      {f g : Fleet redis}
      → Step redis f g
      → spent g + count event_id f.scheduled ≤ count event_id g.scheduled + spent f
  unfolding count
  step_bound {f} (schedules env) = omega (arith, schedule-mark env f.server)
  step_bound {f} (polls now before after due i r) = omega (
    arith,
    holders-around f.instances before after [] free i,
    holders-around _ before after due free refl,
  )
  step_bound {f} (claims before after id rest i) =
      let reply = (redis.zrem schedule_key id f.server).0 in
      omega (
        arith,
        holders-around f.instances before after (id ∷ rest) free i,
        holders-around _ before after rest (after_reply id reply) refl,
        reply-mark id f.server reply refl,
      )
  step_bound {f} (reads before after id rest i) =
      let reply = redis.get (payload_key id) f.server in
      omega (
        arith,
        holders-around f.instances before after rest (has_taken id) i,
        holders-around _ before after rest (after_read id reply) refl,
        read-holds id reply,
      )
  step_bound {f} (sends before after id env rest i) = omega (
    arith,
    holders-around f.instances before after rest (has_read id env) i,
    holders-around _ before after rest (has_sent id) refl,
    republished-once id env f.republished,
  )
  step_bound {f} (deletes before after id rest i) = omega (
    arith,
    holders-around f.instances before after rest (has_sent id) i,
    holders-around _ before after rest free refl,
    deleted-mark id f.server,
  )

  reach_bound :
      {f g : Fleet redis}
      → Reach redis f g
      → spent g + count event_id f.scheduled ≤ count event_id g.scheduled + spent f
  reach_bound here = omega arith
  reach_bound (later r s) = omega (arith, reach_bound r, step_bound s)

  -- Several instances on one Redis, whose calls come in any order, each call of Redis and each
  -- `Produce` by itself: they republish a retry that they have claimed no more often than `Schedule`
  -- was called for it, if it was neither on the schedule nor held by an instance at first. So
  -- instances that find one retry due republish it once at most.
  pub republished_as_scheduled :
      (instances : List Instance) (s : redis.State) (g : Fleet redis)
      → redis.score schedule_key event_id s ≡ none
      → holders instances ≡ 0
      → Reach redis
          (record { server = s; instances = instances; scheduled = []; republished = [] })
          g
      → times_republished g.republished ≤ count event_id g.scheduled
  unfolding on_schedule count times_republished total
  republished_as_scheduled instances s g off idle r =
      omega (arith, reach_bound r, ap mark off, idle)
