-- ===== src/Main/Tests.antt =====
-- A start in an empty environment, with libraries that all answer.
use raider_worker.Processors.{process_visit_approved, process_notification_triggered}
use raider_worker.Base.{
  [], bool_eq, contains, elem, has_suffix, insert, int_eq, list_eq, lookup, nat_eq, none, pos, refl,
  some, text, true, unit_eq, ◌∷◌, ◌≡◌, ◌⊎◌,
}
use raider_worker.Main.{
  kafka_options, new_registry, Libraries, Setup, running, start_up, process_visit_approved,
  process_notification_triggered,
}
use raider_worker.Main.Startup.{running_serves}
use raider_worker.Config.Env.{Env, get_env, get_env_int}
use raider_worker.Config.Load.{load}
use raider_worker.Registry as Registry
use raider_worker.Registry.{VersionKey}
use raider_worker.Consumer.Pools.{new_pools, all_topics, buffer_per_lane, quotient}
use raider_worker.Consumer.Returns.{IsOpen}
use raider_worker.Consumer.Dispatch.{Work}
use raider_worker.WorkerPool.Pool.{Pool}
use raider_worker.WorkerPool.Pool as WorkerPool

abbrev libraries : Libraries
libraries = record {
  init_logger = λ level. none;
  parse_redis_url = λ url. none;
  ping_redis = λ timeout. none;
  connect_mongo = λ uri tls. none;
  ping_mongo = λ timeout. none;
  new_client = λ options. none;
}

abbrev empty_env : Env
empty_env name = []

abbrev setup : Setup
setup = record {
  config = load empty_env;
  options = kafka_options (load empty_env) empty_env;
  processors =
      (record { event_type = text "VISIT_APPROVED"; version = pos 1 }, process_visit_approved)
      ∷ (
        record { event_type = text "NOTIFICATION_TRIGGERED"; version = pos 1 },
        process_notification_triggered,
      )
      ∷ [];
  pools =
      (text "cases", WorkerPool.new (pos 50) (pos 200))
      ∷ (text "payments", WorkerPool.new (pos 20) (pos 500))
      ∷ (text "visits", WorkerPool.new (pos 20) (pos 500))
      ∷ (text "notifications", WorkerPool.new (pos 50) (pos 200))
      ∷ [];
}

starts : start_up libraries empty_env ≡ running setup
unfolding start_up new_registry Registry.register new_pools buffer_per_lane contains lookup insert
    load quotient get_env_int get_env
starts = refl

cases_topic : elem (text "cases") setup.options.topics ≡ true
unfolding kafka_options all_topics load
cases_topic = refl

running_serves_example :
    (has_suffix (text "cases") (text ".retry") ≡ true)
    ⊎ ((pool : Pool Work) × (lookup (text "cases") setup.pools ≡ some pool) × IsOpen pool)
running_serves_example = running_serves libraries empty_env setup (text "cases") starts cases_topic
