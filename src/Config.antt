-- ===== src/Config.antt =====
-- internal/config/config.go, storage.go and load.go: the configuration, its defaults, its check, and what
-- it becomes for the engine and the store. The fields of MetricsConfig, LoggingConfig and AuthConfig
-- stand in the configuration itself; the tags are those of the loader.
use gfire.Prelude.{
  ℕ, ◌*◌, ◌≡◌, refl, String, Bool, true, false, not, ◌&&◌, ◌||◌, arith, Option, none, some, List,
  [], ◌∷◌, ◌==◌, if◌then◌else◌, eqb,
}
use gfire.Prelude.Int.{ℤ, pos}
use gfire.Prelude.Text.{◌<>◌, decimal_int}
use gfire.Prelude.Dict.{Dict, empty, insert, is_some}
use gfire.Engine.Config as Engine

pub record ServerConfig : Type 0 where
  pub host : String
  pub port : ℤ
  pub workers : ℤ
  pub queues : List String
  pub dequeue_timeout : ℤ
  pub shutdown_timeout : ℤ
  pub max_body_size : ℤ
  pub default_timeout : ℤ
  pub server_id : String

pub record HeartbeatConfig : Type 0 where
  pub interval : ℤ
  pub timeout : ℤ
  pub orphan_timeout : ℤ

pub record SchedulerConfig : Type 0 where
  pub interval : ℤ
  pub batch_size : ℤ

pub record CleanupConfig : Type 0 where
  pub interval : ℤ
  pub job_retention : ℤ

pub record RedisConfig : Type 0 where
  pub addr : String
  pub password : String
  pub db : ℤ

pub record PostgresConfig : Type 0 where
  pub dsn : String
  pub max_conns : ℤ
  pub min_conns : ℤ

pub record StorageConfig : Type 0 where
  pub backend : String
  pub redis : RedisConfig
  pub postgres : PostgresConfig

pub record HandlerEntry : Type 0 where
  pub name : String
  pub cmd : String

pub record Config : Type 0 where
  pub server : ServerConfig
  pub heartbeat : HeartbeatConfig
  pub scheduler : SchedulerConfig
  pub cleanup : CleanupConfig
  pub storage : StorageConfig
  pub logging_level : String
  pub logging_format : String
  pub metrics_enabled : Bool
  pub auth_enabled : Bool
  pub auth_token : String
  pub handlers : List HandlerEntry
  pub queue_limits : Dict ℤ

-- Defaults
abbrev pub defaults : Config
defaults = record {
  server = record {
    host = "0.0.0.0";
    port = pos 8080;
    workers = pos 4;
    queues = "default" ∷ [];
    dequeue_timeout = Engine.seconds 5;
    shutdown_timeout = Engine.seconds 30;
    max_body_size = pos (10 * 1_048_576);
    default_timeout = Engine.seconds 30;
    server_id = "";
  };
  heartbeat = record {
    interval = Engine.seconds 5;
    timeout = Engine.seconds 30;
    orphan_timeout = Engine.seconds 300;
  };
  scheduler = record { interval = Engine.seconds 1; batch_size = pos 100 };
  cleanup = record { interval = Engine.seconds 3600; job_retention = Engine.seconds 86_400 };
  storage = record {
    backend = "memory";
    redis = record { addr = ""; password = ""; db = pos 0 };
    postgres = record { dsn = ""; max_conns = pos 0; min_conns = pos 0 };
  };
  logging_level = "info";
  logging_format = "text";
  metrics_enabled = true;
  auth_enabled = false;
  auth_token = "";
  handlers = [];
  queue_limits = empty;
}

abbrev or_else : String → String → String
or_else s other = if s == "" then other else s

-- Config.EngineConfig
unfoldable pub engine_config : Config → String → Engine.Config
engine_config c server_id = record {
  server_id = or_else (or_else server_id c.server.server_id) "local";
  workers = c.server.workers;
  queues = c.server.queues;
  queue_limits = c.queue_limits;
  dequeue_timeout = c.server.dequeue_timeout;
  default_timeout = c.server.default_timeout;
  shutdown_timeout = c.server.shutdown_timeout;
  job_heartbeat_interval = Engine.seconds 60;
  scheduler_interval = c.scheduler.interval;
  scheduler_batch_size = c.scheduler.batch_size;
  server_heartbeat_ttl = c.heartbeat.timeout;
  server_heartbeat_every = c.heartbeat.interval;
  orphan_job_stale_age = c.heartbeat.orphan_timeout;
  cleanup_interval = c.cleanup.interval;
  job_retention = c.cleanup.job_retention;
}

-- The loop of HandlerRegistry, over the entries in their order.
abbrev pub handler_registry : List HandlerEntry → Dict String → Dict String
handler_registry [] m = m
handler_registry (h ∷ handlers) m =
    handler_registry handlers
      (if not (h.name == "") && not (h.cmd == "") then insert h.name h.cmd m else m)

-- The backends that Validate knows.
abbrev is_backend : String → Bool
is_backend name = name == "memory" || (name == "postgres" || name == "redis")

-- Config.Validate: whether there is no error.
unfoldable pub validate : Config → Bool
validate c = is_backend c.storage.backend

pub data Backend : Type 0 where
  memory postgres redis : Backend

-- The switch of OpenStorage.
unfoldable pub backend_of : String → Option Backend
backend_of name =
    if name == ""
    then some memory
    else if name == "memory"
    then some memory
    else if name == "postgres"
    then some postgres
    else if name == "postgresql"
    then some postgres
    else if name == "redis"
    then some redis
    else if name == "valkey"
    then some redis
    else none

-- joinHostPort; `has_colon` and `has_bracket` are what strings.Contains and strings.HasPrefix say.
abbrev pub join_host_port : (String → Bool) → (String → Bool) → String → ℤ → String
join_host_port has_colon has_bracket host port =
    if has_colon host && not (has_bracket host)
    then "[" <> (host <> ("]:" <> decimal_int port))
    else host <> (":" <> decimal_int port)

abbrev is_zero : ℤ → Bool
is_zero (pos n) = eqb n 0
is_zero n = false

-- Config.ListenAddr
unfoldable pub listen_addr : (String → Bool) → (String → Bool) → Config → String
listen_addr has_colon has_bracket c =
    join_host_port has_colon has_bracket (or_else c.server.host "0.0.0.0")
      (if is_zero c.server.port then pos 8080 else c.server.port)

-- The settings that the defaults become need no correction by the engine.
defaults_are_kept :
    (num_cpu : ℕ) → Engine.normalize num_cpu (engine_config defaults "") ≡ engine_config defaults ""
unfolding engine_config Engine.normalize
defaults_are_kept num_cpu = refl

opens : (name : String) → is_backend name ≡ true → is_some (backend_of name) ≡ true
unfolding backend_of
opens name h = ground arith

-- A backend that Validate accepts is one that OpenStorage opens.
pub validate-backend_of :
    (c : Config) → validate c ≡ true → is_some (backend_of c.storage.backend) ≡ true
unfolding validate
validate-backend_of c h = opens c.storage.backend h

-- OpenStorage has names that Validate refuses.
valkey_is_refused :
    (validate (record defaults { storage = record defaults.storage { backend = "valkey" } })
      ≡ false)
    × (backend_of "valkey" ≡ some redis)
unfolding validate backend_of
valkey_is_refused = (refl, refl)
