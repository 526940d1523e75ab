-- ===== src/Delivery/Order.antt =====
-- The order in which the lanes of the whole worker start the records of a partition.
use raider_worker.WorkerPool.System.{submit_cases}
use raider_worker.WorkerPool.Order.{filled_lane-lt, take_cases, lane_for-lt}
use raider_worker.Consumer.Dispatch.{Work}
use raider_worker.Event.Types.{RawMessage}
use raider_worker.WorkerPool.Pool.{receive, Pool, lane_for, submit, Job, get_lane, sent, Lane}
use raider_worker.Base.{
  List, Map, Option, Text, [], ap, bool_eq, inl, inr, insert, int_eq, length, list_eq, lookup,
  nat_eq, none, refl, set, some, subst, sym, unit_eq, ℕ, ◌++◌, ◌<◌, ◌∙◌, ◌∷◌, ◌≡◌,
}
use mathlib.Core.Option.{some-injective}
use raider_worker.Delivery.Lines.{
  Lines, InLine, InLine-dispatched, InLine-queued, InLine-taken, Lines-change,
}

-- The records that are still to be started under a key: those of its jobs that wait in the topic's
-- pool, and the pending one, whose key is not known yet.
pub data Unstarted (pools : Map Text (Pool Work)) (pending : Option RawMessage) (topic key : Text)
    : RawMessage → Type 0 where
  waits :
      (pool : Pool Work) (i : ℕ) (job : Job Work) (before after : List (Job Work))
      → lookup topic pools ≡ some pool
      → (get_lane pool.lanes i).jobs ≡ before ++ job ∷ after
      → job.key ≡ key
      → Unstarted pools pending topic key job.execute.source
  is_pending : (raw : RawMessage) → pending ≡ some raw → Unstarted pools pending topic key raw

pub queued-Lines :
    (fetched : List RawMessage) (raw : RawMessage) (pools : Map Text (Pool Work)) (key : Text)
    (work : Work) (pool pool' : Pool Work)
    → work.source ≡ raw
    → 0 < length pool.lanes
    → lookup raw.topic pools ≡ some pool
    → submit key work pool ≡ sent pool'
    → Lines fetched (some raw) pools
    → Lines fetched none (insert raw.topic pool' pools)
unfolding lane_for
queued-Lines fetched raw pools key work pool pool' source some_lane found sends h =
    elim (submit_cases key work pool) [
      | inl e ↦ absurd (cc)
      | inr (inl e) ↦ absurd (cc)
      | inr (inr (room, e)) ↦
          let i = lane_for pool key in
          let job : Job Work = record { key = key; execute = work } in
          let l : Lane Work = record (get_lane pool.lanes i) {
            jobs = (get_lane pool.lanes i).jobs ++ job ∷ [];
          } in
          let same : record pool { lanes = set pool.lanes i l } ≡ pool' = cc in
          subst (λ v. Lines fetched none (insert raw.topic v pools)) same
            (Lines-change fetched (some raw) none pools raw.topic pool i l found
              (lane_for-lt key pool some_lane) (InLine-dispatched fetched (some raw))
              (InLine-queued fetched raw (length pool.lanes) i _ job source refl
                (h raw.topic pool i found))
              h)
    ]

-- What a receive takes, and what it leaves.
pub receive_parts :
    (i : ℕ) (pool pool' : Pool Work) (job : Job Work)
    → receive i pool ≡ some (job, pool')
    → (rest : List (Job Work)) × ((get_lane pool.lanes i).jobs ≡ job ∷ rest)
      × (record pool {
        lanes = set pool.lanes i (record { jobs = rest; buffer = (get_lane pool.lanes i).buffer });
      }
          ≡ pool')
unfolding receive
receive_parts i pool pool' job r =
    let l = get_lane pool.lanes i in
    elim (take_cases i pool l.buffer l.jobs) [
      | inl e ↦ absurd (cc)
      | inr (first, rest, filled, e) ↦
          let is = some-injective _ _ (sym e ∙ r) in
          (rest, filled ∙ ap (λ v. v.0 ∷ rest) is, ap (λ v. v.1) is)
    ]

pub taken-Lines :
    (fetched : List RawMessage) (pending : Option RawMessage) (pools : Map Text (Pool Work))
    (topic : Text) (i : ℕ) (pool pool' : Pool Work) (job : Job Work)
    → lookup topic pools ≡ some pool
    → receive i pool ≡ some (job, pool')
    → Lines fetched pending pools
    → Lines fetched pending (insert topic pool' pools)
taken-Lines fetched pending pools topic i pool pool' job found r h =
    let (rest, filled, same) = receive_parts i pool pool' job r in
    subst (λ v. Lines fetched pending (insert topic v pools)) same
      (Lines-change fetched pending pending pools topic pool i _ found
        (filled_lane-lt pool.lanes i job rest filled) (λ n j jobs l. l)
        (InLine-taken fetched pending (length pool.lanes) i job rest
          (subst (InLine (length pool.lanes) i fetched pending) filled (h topic pool i found)))
        h)
