-- ===== src/Consumer/Runs.antt =====
-- Runs of the poll loop and of `Stop`.
use raider_worker.Event.Errors.{ok}
use raider_worker.Retry.ScheduleRedis.{ScheduleRedis}
use raider_worker.Event.Types.{Processor}
use raider_worker.Event.Envelope.{
  parse_and_validate, unmarshal_envelope, after_unmarshal, check_envelope, missing_field,
  after_check, after_timestamp, parse_timestamp, event_of,
}
use raider_worker.Base.{
  List, Map, [], bool_eq, false, has_suffix, int_eq, list_eq, lookup, nat_eq, pos, refl, text,
  unit_eq, ◌∷◌, ◌≡◌,
}
use raider_worker.Consumer.Polling.{Poll, polled, stopped, each_record, start}
use raider_worker.Consumer.Rounds.{accepted, is_over, stands, start_exact}
use raider_worker.Consumer.Shutdown.{dispatch_after_stop}
use raider_worker.Consumer.Pools.{stop_pools}
use raider_worker.Consumer.Dispatch.{World, Work, dispatch, panics}
use raider_worker.OffsetManager.Manager as Offsets
use raider_worker.Registry as Registry
use raider_worker.Registry.{VersionKey}
use raider_worker.WorkerPool.Pool.{Pool}
use raider_worker.Samples.Messages.{case_message, case_event, garbage_message, failing}
use raider_worker.Samples.Clock.{sample_times}
use raider_worker.Samples.Memory.{schedule_memory}

abbrev redis : ScheduleRedis
redis = schedule_memory

abbrev pool : Pool Work
pool = record { lanes = (record { jobs = []; buffer = 50 }) ∷ []; closed = false }

unfoldable world : World redis
unfolding schedule_memory
world = record {
  offsets = Offsets.new;
  pools = (text "cases", pool) ∷ [];
  schedules = record { values = []; scores = [] };
  published = [];
}

-- A poll with an error and a record, then one with a record alone.
abbrev polls : List Poll
polls =
    polled ((record { topic = text "visits"; partition = pos 1; canceled = false }) ∷ [])
      ((pos 9, record { raw = garbage_message; leader_epoch = pos 3 }) ∷ [])
    ∷ polled [] ((pos 9, record { raw = case_message; leader_epoch = pos 3 }) ∷ [])
    ∷ stopped
    ∷ []

start_exact_example :
    start redis [] polls world
    ≡ stands redis (is_over polls) (each_record redis [] (accepted polls) world)
start_exact_example = start_exact redis [] polls world

abbrev processors : Map VersionKey Processor
processors = (record { event_type = text "VISIT_APPROVED"; version = pos 1 }, failing) ∷ []

parsed : parse_and_validate case_message ≡ ok case_event
unfolding parse_and_validate unmarshal_envelope after_unmarshal check_envelope missing_field
    after_check after_timestamp parse_timestamp event_of
parsed = refl

dispatch_after_stop_example :
    dispatch redis processors (pos 9) case_message (record world { pools = stop_pools world.pools })
    ≡ panics
unfolding world has_suffix lookup Registry.resolve
dispatch_after_stop_example =
    dispatch_after_stop redis processors (pos 9) case_message world case_event failing pool refl
      parsed refl refl
