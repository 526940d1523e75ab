-- ===== src/Config/Load.antt =====
-- `Config` and `Load`.
use raider_worker.Config.Uri.{build_mongo_uri, resolve_mongo_database, build_redis_uri}
use raider_worker.Time.{Duration}
use raider_worker.Config.Env.{Env, get_env, get_env_bool, get_env_int}
use raider_worker.Base.{
  Text, Bool, List, [], bool_eq, false, if◌then◌else◌, int_eq, list_eq, nat_eq, pos, text, unit_eq,
  wrap64, ℕ, ℤ, ◌==◌, ◌∷◌, negsuc, sub_ℕ, suc, ◌*◌,
}

pub record KafkaConfig : Type 0 where
  pub brokers : List Text
  pub group_id : Text
  pub topics : List Text
  pub retry_topics : List Text
  pub dlq_topics : List Text
  pub tls_enabled : Bool

pub record MongoConfig : Type 0 where
  pub uri : Text
  pub database : Text
  pub tls : Bool

pub record WorkerConfig : Type 0 where
  pub case_count : ℤ
  pub payment_count : ℤ
  pub visit_count : ℤ
  pub notification_count : ℤ
  pub queue_buffer_size : ℤ

pub record ServerConfig : Type 0 where
  pub prometheus_port : Text
  pub health_port : Text

pub record TimeoutConfig : Type 0 where
  pub kafka_processing : Duration
  pub mongo_db : Duration
  pub redis : Duration
  pub external_api : Duration

-- `redis_uri`, `log_level` and `max_retries` are structs of one field in the code.
pub record Config : Type 0 where
  pub kafka : KafkaConfig
  pub mongo : MongoConfig
  pub redis_uri : Text
  pub workers : WorkerConfig
  pub server : ServerConfig
  pub log_level : Text
  pub timeouts : TimeoutConfig
  pub max_retries : ℤ

abbrev pub put_first : ℕ → List Text → List Text
put_first c [] = (c ∷ []) ∷ []
put_first c (w ∷ ws) = (c ∷ w) ∷ ws

-- strings.Split at a separator of one byte.
unfoldable pub split : ℕ → Text → List Text
split sep [] = [] ∷ []
split sep (c ∷ s) = let rest = split sep s in if c == sep then [] ∷ rest else put_first c rest

abbrev pub topic_names : List Text
topic_names = text "cases" ∷ text "payments" ∷ text "visits" ∷ text "notifications" ∷ []

abbrev pub retry_topic_names : List Text
retry_topic_names =
    text "cases.retry"
    ∷ text "payments.retry"
    ∷ text "visits.retry"
    ∷ text "notifications.retry"
    ∷ []

abbrev pub dlq_topic_names : List Text
dlq_topic_names =
    text "cases.dlq" ∷ text "payments.dlq" ∷ text "visits.dlq" ∷ text "notifications.dlq" ∷ []

abbrev pub scale : ℕ → ℤ → ℤ
scale k (pos n) = pos (k * n)
scale k (negsuc n) = sub_ℕ 0 (k * suc n)

-- A number of milliseconds as a `time.Duration`, whose product wraps around.
unfoldable pub milliseconds : ℤ → Duration
milliseconds n = wrap64 (scale 1000000 n)

-- `Load`.
unfoldable pub load : Env → Config
load env = record {
  kafka = record {
    brokers = split b',' (get_env env (text "KAFKA_BROKERS") (text "localhost:9092"));
    group_id = get_env env (text "KAFKA_GROUP_ID") (text "debt-recovery-workers");
    topics = topic_names;
    retry_topics = retry_topic_names;
    dlq_topics = dlq_topic_names;
    tls_enabled = get_env_bool env (text "KAFKA_TLS_ENABLED") false;
  };
  mongo = record {
    uri = build_mongo_uri env;
    database = resolve_mongo_database env;
    tls = get_env_bool env (text "MONGO_TLS_ENABLED") false;
  };
  redis_uri = build_redis_uri env;
  workers = record {
    case_count = get_env_int env (text "WORKER_CASE_COUNT") (pos 50);
    payment_count = get_env_int env (text "WORKER_PAYMENT_COUNT") (pos 20);
    visit_count = get_env_int env (text "WORKER_VISIT_COUNT") (pos 20);
    notification_count = get_env_int env (text "WORKER_NOTIFICATION_COUNT") (pos 50);
    queue_buffer_size = get_env_int env (text "WORKER_QUEUE_BUFFER_SIZE") (pos 10000);
  };
  server = record {
    prometheus_port = get_env env (text "PROMETHEUS_PORT") (text "9090");
    health_port = get_env env (text "HEALTH_PORT") (text "8080");
  };
  log_level = get_env env (text "LOG_LEVEL") (text "info");
  timeouts = record {
    kafka_processing = milliseconds (get_env_int env (text "TIMEOUT_KAFKA_MS") (pos 30000));
    mongo_db = milliseconds (get_env_int env (text "TIMEOUT_MONGO_MS") (pos 5000));
    redis = milliseconds (get_env_int env (text "TIMEOUT_REDIS_MS") (pos 2000));
    external_api = milliseconds (get_env_int env (text "TIMEOUT_EXTERNAL_API_MS") (pos 10000));
  };
  max_retries = get_env_int env (text "RETRY_MAX") (pos 5);
}
