-- ===== src/Retry/Contention.antt =====
-- Two instances that find the same retry due.
use raider_worker.Json.{decode_struct, decode_int, decode_string}
use raider_worker.Retry.Envelope.{marshal_retry, unmarshal_retry, set_retry, decode_time}
use raider_worker.Event.Errors.{ok}
use raider_worker.Base.{
  [], bool_eq, count, insert, int_eq, list_eq, lookup, nat_eq, none, pos, refl, text, unit_eq, ◌∷◌,
  ◌≡◌, ◌≤◌, contains, delete, total, List, ap,
}
use raider_worker.Retry.Runs.{retried, redis, nothing}
use raider_worker.Retry.Fleet.{
  Fleet, Instance, Claiming, free, has_taken, has_read, has_sent, Reach, schedules, polls, claims,
  reads, sends, here, later, after_reply, after_read, after_decode,
}
use raider_worker.Retry.SingleClaim.{republished_as_scheduled, holders, times_republished}
use raider_worker.Samples.Clock.{sample_times}
use raider_worker.Samples.Memory.{schedule_memory}
use raider_worker.Retry.Scheduler.{schedule, schedule_key, unix, persist, republish, payload_key}

abbrev resting : Instance
resting = record { due = []; claiming = free }

abbrev listing : Instance
listing = record { due = text "e1" ∷ []; claiming = free }

abbrev start : Fleet redis
start = record {
  server = nothing;
  instances = resting ∷ resting ∷ [];
  scheduled = [];
  republished = [];
}

abbrev full : Fleet redis
full = record start { server = (schedule redis retried nothing).1; scheduled = text "e1" ∷ [] }

abbrev both_due : Fleet redis
both_due = record full { instances = listing ∷ listing ∷ [] }

is_due :
    redis.range_by_score schedule_key (pos 0) (unix (pos 60000000000)) 500 full.server
    ≡ ok (text "e1" ∷ [])
unfolding schedule persist nothing schedule_memory marshal_retry insert lookup
is_due = refl

polled : Reach redis start both_due
polled =
    later
      (later (later here (schedules retried))
        (polls (pos 60000000000) [] (resting ∷ []) (text "e1" ∷ []) refl is_due))
      (polls (pos 60000000000) (listing ∷ []) [] (text "e1" ∷ []) refl is_due)

abbrev one_claimed : Fleet redis
one_claimed = record both_due {
  server = (redis.zrem schedule_key (text "e1") both_due.server).1;
  instances =
      (record {
        due = [];
        claiming = after_reply (text "e1") (redis.zrem schedule_key (text "e1") both_due.server).0;
      })
      ∷ listing
      ∷ [];
}

abbrev second : Instance
second = record {
  due = [];
  claiming = after_reply (text "e1") (redis.zrem schedule_key (text "e1") one_claimed.server).0;
}

abbrev both_claimed : Fleet redis
both_claimed = record one_claimed {
  server = (redis.zrem schedule_key (text "e1") one_claimed.server).1;
  instances =
      (record {
        due = [];
        claiming = after_reply (text "e1") (redis.zrem schedule_key (text "e1") both_due.server).0;
      })
      ∷ second
      ∷ [];
}

first_takes :
    after_reply (text "e1") (redis.zrem schedule_key (text "e1") both_due.server).0
    ≡ has_taken (text "e1")
unfolding after_reply schedule persist nothing schedule_memory marshal_retry insert lookup contains
first_takes = refl

first_reads :
    after_read (text "e1") (redis.get (payload_key (text "e1")) both_claimed.server)
    ≡ has_read (text "e1") retried
unfolding after_read after_decode unmarshal_retry schedule persist nothing schedule_memory
    marshal_retry insert lookup contains delete payload_key decode_struct set_retry decode_int
    decode_string decode_time
first_reads = refl

abbrev sent : Fleet redis
sent = record both_claimed {
  instances = (record { due = []; claiming = has_sent (text "e1") }) ∷ second ∷ [];
  republished = (text "e1", republish retried) ∷ [];
}

abbrev with_first : Claiming → List Instance
with_first c = (record { due = []; claiming = c }) ∷ second ∷ []

claimed : Reach redis start both_claimed
claimed = later (later polled (claims [] (listing ∷ []) (text "e1") [] refl)) (
    claims
      ((record {
        due = [];
        claiming = after_reply (text "e1") (redis.zrem schedule_key (text "e1") both_due.server).0;
      })
        ∷ [])
      [] (text "e1") [] refl)

finished : Reach redis start sent
finished =
    later (later claimed (reads [] (second ∷ []) (text "e1") [] (ap with_first first_takes)))
      (sends [] (second ∷ []) (text "e1") retried [] (ap with_first first_reads))

is_off : redis.score schedule_key (text "e1") nothing ≡ none
unfolding nothing schedule_memory lookup
is_off = refl

none_holds : holders redis (text "e1") (resting ∷ resting ∷ []) ≡ 0
unfolding holders total
none_holds = refl

republished_as_scheduled_example :
    times_republished redis (text "e1") sent.republished ≤ count (text "e1") (text "e1" ∷ [])
republished_as_scheduled_example =
    republished_as_scheduled redis (text "e1") (resting ∷ resting ∷ []) nothing sent is_off
      none_holds finished
