-- ===== src/Consumer/Polling.antt =====
-- `Start` of internal/consumer/consumer.go: the poll loop, which tracks and dispatches each record.
use raider_worker.Registry.{VersionKey}
use raider_worker.Event.Types.{RawMessage, Processor}
use raider_worker.Time.{Time, TimeText}
use raider_worker.Retry.ScheduleRedis.{ScheduleRedis}
use raider_worker.Consumer.Dispatch.{World, Dispatched, panics, waits, returns, dispatch, place}
use raider_worker.OffsetManager.Manager as Offsets
use raider_worker.Base.{Text, Bool, List, Map, [], false, if◌then◌else◌, ℤ, ◌||◌, ◌∷◌}

-- `kgo.Record`, as far as the loop reads it.
pub record Fetched : Type 0 where
  pub raw : RawMessage
  pub leader_epoch : ℤ

-- An error of `fetches.Errors()`: whether it is `context.Canceled`.
pub record FetchError : Type 0 where
  pub topic : Text
  pub partition : ℤ
  pub canceled : Bool

-- What the loop meets: a context that is done, a closed `stopCh`, or a poll with the partitions'
-- errors and the records of the others, each with the time at which it is dispatched.
pub data Poll : Type 0 where
  ctx_done stopped : Poll
  polled : List FetchError → List (Time × Fetched) → Poll

-- Whether the loop over the errors returns.
abbrev pub any_canceled : List FetchError → Bool
any_canceled [] = false
any_canceled (x ∷ xs) = x.canceled || any_canceled xs

module _ (redis : ScheduleRedis) where
  -- How the loop ends: it returns, still polls, or is stuck in a dispatch.
  pub data Started : Type 0 where
    exits : World redis → Started
    polls_on : World redis → Started
    stuck : Dispatched redis → Started

  -- c.offsets.Track, for the record of a poll.
  unfoldable pub track_record : Fetched → World redis → World redis
  track_record f w = record w {
    offsets = Offsets.track (place f.raw) f.raw.offset f.leader_epoch w.offsets;
  }

  module _ ⦃times : TimeText⦄ (processors : Map VersionKey Processor) where
    -- The function of `EachRecord`, on each record in turn.
    unfoldable pub each_record : List (Time × Fetched) → World redis → Dispatched redis
    each_record [] w = returns w
    each_record ((now, f) ∷ rest) w =
        elim (dispatch redis processors now f.raw (track_record f w)) [
          | panics ↦ panics
          | waits ↦ waits
          | returns w' ↦ each_record rest w'
        ]

    -- `Start`, for what it meets round after round.
    unfoldable pub start : List Poll → World redis → Started
    start [] w = polls_on w
    start (ctx_done ∷ later) w = exits w
    start (stopped ∷ later) w = exits w
    start (polled [] records ∷ later) w = elim (each_record records w) [
      | panics ↦ stuck panics
      | waits ↦ stuck waits
      | returns w' ↦ start later w'
    ]
    start (polled (x ∷ xs) records ∷ later) w =
        let rest = start later w in if any_canceled (x ∷ xs) then exits w else rest
