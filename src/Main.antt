-- ===== src/Main.antt =====
-- cmd/worker/main.go: what the worker is built from, and when it starts.
use raider_worker.WorkerPool.Pool.{Pool}
use raider_worker.Processors.{process_visit_approved, process_notification_triggered}
use raider_worker.Time.{Duration}
use raider_worker.Event.Errors.{GoError}
use raider_worker.Event.Types.{Processor}
use raider_worker.Base.{
  Text, Bool, List, Map, Option, if◌then◌else◌, is_empty, none, not, pos, some, text, ◌&&◌, ◌>>=◌,
}
pub mod Startup
mod Tests
use raider_worker.Config.Env.{Env}
use raider_worker.Config.Load.{Config, load}
use raider_worker.Consumer.Pools.{new_pools, all_topics}
use raider_worker.Consumer.Dispatch.{Work}
use raider_worker.Registry as Registry
use raider_worker.Registry.{VersionKey}

-- The options of the Kafka client that depend on the configuration or the environment; `sasl` is
-- the user with the password of SASL/PLAIN.
pub record KafkaOptions : Type 0 where
  pub brokers : List Text
  pub group_id : Text
  pub topics : List Text
  pub tls : Bool
  pub sasl : Option (Text × Text)

-- The credentials, which are read only with TLS.
abbrev pub credentials : Bool → Text → Text → Option (Text × Text)
credentials tls user password =
    if tls && (not (is_empty user) && not (is_empty password)) then some (user, password) else none

unfoldable pub kafka_options : Config → Env → KafkaOptions
kafka_options cfg env = record {
  brokers = cfg.kafka.brokers;
  group_id = cfg.kafka.group_id;
  topics = all_topics cfg;
  tls = cfg.kafka.tls_enabled;
  sasl =
      credentials cfg.kafka.tls_enabled (env (text "KAFKA_SASL_USER"))
        (env (text "KAFKA_SASL_PASSWORD"));
}

-- The processors of the worker: nothing where a `Register` panics.
unfoldable pub new_registry : Option (Map VersionKey Processor)
new_registry = do
  visits ← Registry.register (text "VISIT_APPROVED") (pos 1) process_visit_approved Registry.new
  Registry.register (text "NOTIFICATION_TRIGGERED") (pos 1) process_notification_triggered visits

-- What the libraries answer at the start: an error, or none.
pub record Libraries : Type 0 where
  pub init_logger : Text → Option GoError
  pub parse_redis_url : Text → Option GoError
  pub ping_redis : Duration → Option GoError
  pub connect_mongo : Text → Bool → Option GoError
  pub ping_mongo : Duration → Option GoError
  pub new_client : KafkaOptions → Option GoError

-- What the goroutines of the worker run on.
pub record Setup : Type 0 where
  pub config : Config
  pub options : KafkaOptions
  pub processors : Map VersionKey Processor
  pub pools : Map Text (Pool Work)

-- How the start ends: `main` panics, exits by `log.Fatal`, or the worker runs.
pub data Start : Type 0 where
  start_panics : Start
  fatal : Text → Start
  running : Setup → Start

-- A step whose error is fatal.
abbrev pub need : Text → Option GoError → Start → Start
need what none next = next
need what (some x) next = fatal what

-- A step whose error is a panic.
abbrev pub must : Option GoError → Start → Start
must none next = next
must (some x) next = start_panics

abbrev pub or_panic : {A : Type 0} → Option A → (A → Start) → Start
or_panic none next = start_panics
or_panic (some a) next = next a

-- `main` up to the `go` statements, in the environment that `godotenv.Load` leaves.
unfoldable pub start_up : Libraries → Env → Start
start_up libs env =
    let cfg = load env in
    let options = kafka_options cfg env in
    must (libs.init_logger cfg.log_level) (
      need (text "invalid REDIS_URI") (libs.parse_redis_url cfg.redis_uri) (
        need (text "redis ping failed") (libs.ping_redis cfg.timeouts.redis) (
          need (text "mongo connect failed") (libs.connect_mongo cfg.mongo.uri cfg.mongo.tls) (
            need (text "mongo ping failed") (libs.ping_mongo cfg.timeouts.mongo_db) (
              need (text "kafka client init failed") (libs.new_client options) (
                or_panic new_registry (λ processors. or_panic (new_pools cfg.workers) (λ pools.
                  running (record {
                    config = cfg;
                    options = options;
                    processors = processors;
                    pools = pools;
                  })))))))))
