-- ===== src/Consumer/Returns.antt =====
-- When `dispatch` returns: it waits only for a full lane, and panics only on a stopped pool.
use raider_worker.Event.Affinity.{affinity_key}
use raider_worker.Event.Envelope.{parse_and_validate}
use raider_worker.Event.Errors.{Result, err, ok}
use raider_worker.Event.Types.{Processor, RawMessage, Event}
use raider_worker.Retry.ScheduleRedis.{ScheduleRedis}
use raider_worker.Time.{TimeText, Time}
use raider_worker.Consumer.Dispatch.{
  World, Work, Dispatched, dispatch, returns, after_submit, after_pool, after_resolve, after_parse,
}
use raider_worker.WorkerPool.Pool.{Pool, sent, submit, is_lane_full}
use raider_worker.Registry as Registry
use raider_worker.Registry.{VersionKey}
use raider_worker.Consumer.Outcomes.{work_of}
use raider_worker.Base.{
  Text, Bool-cases, Map, Option, bool_eq, false, has_suffix, inl, inr, int_eq, list_eq, lookup,
  nat_eq, none, refl, some, text, unit_eq, ◌≡◌,
}

-- A pool that runs and has room in every lane.
pub record IsOpen (pool : Pool Work) : Type 0 where
  pub running : pool.closed ≡ false
  pub room : (key : Text) → is_lane_full pool key ≡ false

submit-sent :
    (key : Text) (work : Work) (pool : Pool Work)
    → IsOpen pool
    → (pool' : Pool Work) × (submit key work pool ≡ sent pool')
unfolding submit is_lane_full
submit-sent key work pool h = simp (h.running, h.room key) (_, refl)

module _ ⦃times : TimeText⦄ (redis : ScheduleRedis) (processors : Map VersionKey Processor)
    (now : Time) (raw : RawMessage) where
  Returns : Dispatched redis → Type 0
  Returns d = (w' : World redis) × (d ≡ returns w')

  after_pool-Returns :
      (e : Event) (processor : Processor) (o : Option (Pool Work)) (w : World redis)
      → ((pool : Pool Work) → o ≡ some pool → IsOpen pool)
      → Returns (after_pool redis now raw e processor o w)
  unfolding Returns after_pool after_submit
  after_pool-Returns e processor none w h = (_, refl)
  after_pool-Returns e processor (some pool) w h =
      let (pool', s) = submit-sent (affinity_key e) (work_of raw e processor) pool (h pool refl) in
      rw s (_, refl)

  after_resolve-Returns :
      (e : Event) (o : Result Processor) (w : World redis)
      → ((pool : Pool Work) → lookup raw.topic w.pools ≡ some pool → IsOpen pool)
      → Returns (after_resolve redis now raw e o w)
  unfolding Returns after_resolve
  after_resolve-Returns e (err x) w h = (_, refl)
  after_resolve-Returns e (ok processor) w h =
      after_pool-Returns e processor (lookup raw.topic w.pools) w h

  after_parse-Returns :
      (o : Result Event) (w : World redis)
      → ((pool : Pool Work) → lookup raw.topic w.pools ≡ some pool → IsOpen pool)
      → Returns (after_parse redis processors now raw o w)
  unfolding Returns after_parse
  after_parse-Returns (err x) w h = (_, refl)
  after_parse-Returns (ok e) w h =
      after_resolve-Returns e (Registry.resolve e.event_type e.version processors) w h

  -- `dispatch` returns for every message, whatever its body, if the pool of its topic, where there
  -- is one, has not been stopped and has room in its lanes.
  pub dispatch_returns :
      (w : World redis)
      → ((pool : Pool Work) → lookup raw.topic w.pools ≡ some pool → IsOpen pool)
      → (w' : World redis) × (dispatch redis processors now raw w ≡ returns w')
  unfolding Returns dispatch
  dispatch_returns w h = elim (Bool-cases (has_suffix raw.topic (text ".retry"))) [
    | inl retry ↦ rw retry (_, refl)
    | inr main ↦ rw main (after_parse-Returns (parse_and_validate raw) w h)
  ]
