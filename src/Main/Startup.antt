-- ===== src/Main/Startup.antt =====
-- What holds of a worker that runs.
use raider_worker.Event.Types.{Processor}
use raider_worker.Registry.Lookup.{resolve-register}
use raider_worker.Processors.{process_notification_triggered, process_visit_approved}
use raider_worker.WorkerPool.Pool.{Pool}
use raider_worker.Consumer.Pools.{new_pools}
use raider_worker.Event.Errors.{GoError, ok, err, unknown_event_type}
use raider_worker.Registry as Registry
use raider_worker.Base.{
  Text, Option, none, refl, some, ◌≡◌, >>=-eq-some, ap, bool_eq, decimal, elem, has_suffix,
  if◌then◌else◌, int_eq, list_eq, lookup, nat_eq, pos, subst, sym, text, true, unit_eq, ℤ, ◌&&◌,
  ◌++◌, ◌==◌, ◌∙◌, ◌⊎◌,
}
use raider_worker.Config.Env.{Env}
use raider_worker.Config.Load.{load}
use raider_worker.Main.{
  kafka_options, new_registry, Libraries, Setup, Start, running, need, or_panic, start_up,
  new_pools, GoError, must, Pool, process_notification_triggered, process_visit_approved, Processor,
}
use raider_worker.Consumer.Topics.{topics_served}
use raider_worker.Consumer.Returns.{IsOpen}
use raider_worker.Consumer.Dispatch.{Work}

need-inv :
    (what : Text) (o : Option GoError) (next : Start) (s : Setup)
    → need what o next ≡ running s
    → (o ≡ none) × (next ≡ running s)
need-inv what none next s h = (refl, h)
need-inv what (some x) next s h = absurd (cc)

must-inv :
    (o : Option GoError) (next : Start) (s : Setup)
    → must o next ≡ running s
    → (o ≡ none) × (next ≡ running s)
must-inv none next s h = (refl, h)
must-inv (some x) next s h = absurd (cc)

running-injective : (s t : Setup) → running s ≡ running t → s ≡ t
running-injective s t h = cc

or_panic-inv :
    {A : Type 0} (o : Option A) (next : A → Start) (s : Setup)
    → or_panic o next ≡ running s
    → (a : A) × (o ≡ some a) × (next a ≡ running s)
or_panic-inv none next s h = absurd (cc)
or_panic-inv (some a) next s h = (a, refl, h)

-- Everything that `main` asked for went well.
pub record IsUp (libs : Libraries) (env : Env) (s : Setup) : Type 0 where
  pub logger : libs.init_logger (load env).log_level ≡ none
  pub redis_url : libs.parse_redis_url (load env).redis_uri ≡ none
  pub redis : libs.ping_redis (load env).timeouts.redis ≡ none
  pub mongo_connect : libs.connect_mongo (load env).mongo.uri (load env).mongo.tls ≡ none
  pub mongo : libs.ping_mongo (load env).timeouts.mongo_db ≡ none
  pub client : libs.new_client (kafka_options (load env) env) ≡ none
  pub config : s.config ≡ load env
  pub options : s.options ≡ kafka_options (load env) env
  pub processors : new_registry ≡ some s.processors
  pub pools : new_pools (load env).workers ≡ some s.pools

-- The worker runs only after the logger, Redis, MongoDB and the Kafka client answered without an
-- error, and no worker count is 0; and then it runs on the configuration of the environment.
pub running-IsUp :
    (libs : Libraries) (env : Env) (s : Setup) → start_up libs env ≡ running s → IsUp libs env s
unfolding start_up
running-IsUp libs env s h =
    let (logger, h0) = must-inv _ _ s h in
    let (redis_url, h1) = need-inv _ _ _ s h0 in
    let (redis, h2) = need-inv _ _ _ s h1 in
    let (mongo_connect, h3) = need-inv _ _ _ s h2 in
    let (mongo, h4) = need-inv _ _ _ s h3 in
    let (client, h5) = need-inv _ _ _ s h4 in
    let (processors, registered, h6) = or_panic-inv _ _ s h5 in
    let (pools, made, h7) = or_panic-inv _ _ s h6 in
    let same = running-injective _ s h7 in
    record {
      logger = logger;
      redis_url = redis_url;
      redis = redis;
      mongo_connect = mongo_connect;
      mongo = mongo;
      client = client;
      config = ap (λ s. s.config) (sym same);
      options = ap (λ s. s.options) (sym same);
      processors = registered ∙ ap (λ s. some s.processors) same;
      pools = made ∙ ap (λ s. some s.pools) same;
    }

-- A worker that runs serves every topic that its client subscribes to: it is a retry topic, which
-- goes to the scheduler, or it has a pool, which is open and has room in every lane.
pub running_serves :
    (libs : Libraries) (env : Env) (s : Setup) (topic : Text)
    → start_up libs env ≡ running s
    → elem topic s.options.topics ≡ true
    → (has_suffix topic (text ".retry") ≡ true)
      ⊎ ((pool : Pool Work) × (lookup topic s.pools ≡ some pool) × IsOpen pool)
unfolding kafka_options
running_serves libs env s topic h e =
    let up = running-IsUp libs env s h in
    topics_served env s.pools topic up.pools (subst (λ o. elem topic o.topics ≡ true) up.options e)

unregistered :
    (event_type : Text) (version : ℤ)
    → Registry.resolve {P = Processor} event_type version Registry.new
      ≡ err (unknown_event_type (event_type ++ (text " v" ++ decimal version)))
unfolding Registry.resolve lookup
unregistered event_type version = refl

-- The registry of a worker that runs has the two processors at version 1, and no other.
pub running_resolves :
    (libs : Libraries) (env : Env) (s : Setup) (event_type : Text) (version : ℤ)
    → start_up libs env ≡ running s
    → Registry.resolve event_type version s.processors ≡ (
        if (text "NOTIFICATION_TRIGGERED" == event_type) && (pos 1 == version)
        then ok process_notification_triggered
        else if (text "VISIT_APPROVED" == event_type) && (pos 1 == version)
        then ok process_visit_approved
        else err (unknown_event_type (event_type ++ (text " v" ++ decimal version))))
unfolding new_registry
running_resolves libs env s event_type version h =
    let registered = (running-IsUp libs env s h).processors in
    let (visits, first, second) =
      >>=-eq-some
        (Registry.register (text "VISIT_APPROVED") (pos 1) process_visit_approved Registry.new)
        (Registry.register (text "NOTIFICATION_TRIGGERED") (pos 1) process_notification_triggered)
        registered in
    let last = resolve-register _ event_type _ version _ visits second in
    let before = resolve-register _ event_type _ version _ Registry.new first in
    last.1
    ∙ ap
        (λ r.
          if (text "NOTIFICATION_TRIGGERED" == event_type) && (pos 1 == version)
          then ok process_notification_triggered
          else r)
        (before.1
          ∙ ap
              (λ r.
                if (text "VISIT_APPROVED" == event_type) && (pos 1 == version)
                then ok process_visit_approved
                else r)
              (unregistered event_type version))
