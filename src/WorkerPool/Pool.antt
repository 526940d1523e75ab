-- ===== src/WorkerPool/Pool.antt =====
-- `Pool` and its methods. A job is what the lane's goroutine runs, with the key it was sent under.
use raider_worker.Base.{
  Bool, List, Option, Text, [], false, if◌then◌else◌, leb, length, negsuc, none, pos, set, some,
  suc, true, zero, ℕ, ℤ, ◌%◌, ◌++◌, ◌+◌, ◌∷◌,
}
use raider_worker.WorkerPool.Hash.{sum32}

pub record Job {ℓ} (A : Type ℓ) : Type ℓ where
  pub key : Text
  pub execute : A

-- A lane's channel: the jobs in its buffer, the oldest first, and the buffer's size.
pub record Lane {ℓ} (A : Type ℓ) : Type ℓ where
  pub jobs : List (Job A)
  pub buffer : ℕ

-- `closed` after `Stop` has closed the channels.
pub record Pool {ℓ} (A : Type ℓ) : Type ℓ where
  pub lanes : List (Lane A)
  pub closed : Bool

-- The smallest count that `New` accepts.
abbrev pub at_least_one : ℤ → ℕ
at_least_one (pos zero) = 1
at_least_one (pos (suc n)) = suc n
at_least_one (negsuc n) = 1

-- What `Submit` does: it panics on a closed channel, waits for room, or sends.
pub data Sending {ℓ} (A : Type ℓ) : Type ℓ where
  send_panics : Sending A
  waits_for_room : Sending A
  sent : Pool A → Sending A

module _ {ℓ} {A : Type ℓ} where
  unfoldable pub make_lanes : ℕ → ℕ → List (Lane A)
  make_lanes zero buffer = []
  make_lanes (suc n) buffer = record { jobs = []; buffer = buffer } ∷ make_lanes n buffer

  -- `New`.
  unfoldable pub new : ℤ → ℤ → Pool A
  unfolding make_lanes
  new lane_count buffer_per_lane = record {
    lanes = make_lanes (at_least_one lane_count) (at_least_one buffer_per_lane);
    closed = false;
  }

  -- The index of `laneFor`.
  unfoldable pub lane_for : Pool A → Text → ℕ
  lane_for p key = sum32 key % length p.lanes

  abbrev pub empty_lane : Lane A
  empty_lane = record { jobs = []; buffer = 0 }

  -- The lane at an index.
  abbrev pub get_lane : List (Lane A) → ℕ → Lane A
  get_lane [] i = empty_lane
  get_lane (l ∷ ls) zero = l
  get_lane (l ∷ ls) (suc i) = get_lane ls i

  abbrev pub is_full : Lane A → Bool
  is_full l = leb l.buffer (length l.jobs)

  -- `Submit`.
  unfoldable pub submit : Text → A → Pool A → Sending A
  submit key a p =
      let i = lane_for p key in
      let l = get_lane p.lanes i in
      if p.closed
      then send_panics
      else if is_full l
      then waits_for_room
      else sent (record p {
        lanes =
            set p.lanes i (record l { jobs = l.jobs ++ (record { key = key; execute = a }) ∷ [] });
      })

  -- `IsLaneFull`.
  unfoldable pub is_lane_full : Pool A → Text → Bool
  is_lane_full p key = is_full (get_lane p.lanes (lane_for p key))

  unfoldable pub depth : List (Lane A) → ℕ
  depth [] = 0
  depth (l ∷ ls) = length l.jobs + depth ls

  -- `QueueDepth`.
  unfoldable pub queue_depth : Pool A → ℕ
  unfolding depth
  queue_depth p = depth p.lanes

  -- The lane `l` at `i` loses the job that its goroutine takes.
  unfoldable pub take_job : ℕ → Pool A → ℕ → List (Job A) → Option (Job A × Pool A)
  take_job i p buffer [] = none
  take_job i p buffer (job ∷ rest) =
      some (job, record p { lanes = set p.lanes i (record { jobs = rest; buffer = buffer }) })

  -- One receive of `runLane` on the lane `i`: nothing while the lane is empty.
  unfoldable pub receive : ℕ → Pool A → Option (Job A × Pool A)
  receive i p = let l = get_lane p.lanes i in take_job i p l.buffer l.jobs

  -- `Stop`, before the lanes are empty.
  unfoldable pub stop : Pool A → Pool A
  stop p = record p { closed = true }
