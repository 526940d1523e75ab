-- ===== src/Consumer/Rounds.antt =====
-- What the poll loop dispatches: the records of the polls that came without an error.
use raider_worker.Event.Types.{Processor}
use raider_worker.Registry.{VersionKey}
use raider_worker.Retry.ScheduleRedis.{ScheduleRedis}
use raider_worker.Time.{TimeText, Time}
use raider_worker.Base.{
  Bool, Bool-cases, List, Map, [], false, if◌then◌else◌, inl, inr, refl, true, ◌++◌, ◌∷◌, ◌≡◌,
}
use raider_worker.Consumer.Dispatch.{World, Dispatched, panics, waits, returns, dispatch}
use raider_worker.Consumer.Polling.{
  Fetched, Poll, ctx_done, stopped, polled, any_canceled, Started, exits, polls_on, stuck,
  each_record, start, track_record,
}

-- The records of the polls before the loop returns, less those of a poll with an error.
unfoldable pub accepted : List Poll → List (Time × Fetched)
accepted [] = []
accepted (ctx_done ∷ later) = []
accepted (stopped ∷ later) = []
accepted (polled [] records ∷ later) = records ++ accepted later
accepted (polled (x ∷ xs) records ∷ later) =
    let rest = accepted later in if any_canceled (x ∷ xs) then [] else rest

-- Whether one of the polls makes the loop return.
unfoldable pub is_over : List Poll → Bool
is_over [] = false
is_over (ctx_done ∷ later) = true
is_over (stopped ∷ later) = true
is_over (polled [] records ∷ later) = is_over later
is_over (polled (x ∷ xs) records ∷ later) =
    let rest = is_over later in if any_canceled (x ∷ xs) then true else rest

module _ (redis : ScheduleRedis) where
  -- How the loop stands after its records.
  abbrev pub stands : Bool → Dispatched redis → Started redis
  stands over panics = stuck panics
  stands over waits = stuck waits
  stands over (returns w) = if over then exits w else polls_on w

module _ ⦃times : TimeText⦄ (redis : ScheduleRedis) (processors : Map VersionKey Processor) where
  -- The rest of the records, unless the loop is stuck.
  abbrev go_on : List (Time × Fetched) → Dispatched redis → Dispatched redis
  go_on rest panics = panics
  go_on rest waits = waits
  go_on rest (returns w) = each_record redis processors rest w

  abbrev after_round : List Poll → Dispatched redis → Started redis
  after_round later panics = stuck panics
  after_round later waits = stuck waits
  after_round later (returns w) = start redis processors later w

  each_record-append :
      (xs ys : List (Time × Fetched)) (w : World redis)
      → each_record redis processors (xs ++ ys) w ≡ go_on ys (each_record redis processors xs w)
  unfolding each_record
  each_record-append [] ys w = refl
  each_record-append ((now, f) ∷ xs) ys w =
      elim (dispatch redis processors now f.raw (track_record redis f w))
        as (λ d. go_on (xs ++ ys) d ≡ go_on ys (go_on xs d)) [
          | panics ↦ refl
          | waits ↦ refl
          | returns w' ↦ each_record-append xs ys w'
        ]

  -- The poll loop is the dispatch of each accepted record in turn, a list that the polls alone
  -- decide: it holds all records of a poll without an error, none of a poll with one, and none after
  -- a poll that makes the loop return.
  pub start_exact :
      (polls : List Poll) (w : World redis)
      → start redis processors polls w
        ≡ stands redis (is_over polls) (each_record redis processors (accepted polls) w)
  unfolding start each_record accepted is_over
  start_exact [] w = refl
  start_exact (ctx_done ∷ later) w = refl
  start_exact (stopped ∷ later) w = refl
  start_exact (polled [] records ∷ later) w =
      rw (each_record-append records (accepted later) w)
        (elim (each_record redis processors records w)
          as (λ d. after_round later d ≡ stands redis (is_over later) (go_on (accepted later) d)) [
            | panics ↦ refl
            | waits ↦ refl
            | returns w' ↦ start_exact later w'
          ])
  start_exact (polled (x ∷ xs) records ∷ later) w = elim (Bool-cases (any_canceled (x ∷ xs))) [
    | inl over ↦ rw over
    | inr goes ↦ rw goes (start_exact later w)
  ]
