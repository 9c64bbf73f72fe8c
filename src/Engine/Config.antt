-- ===== src/Engine/Config.antt =====
-- internal/engine/config.go: the settings of the worker pool and their defaults. Durations are
-- int64 nanoseconds; `num_cpu` is the value of runtime.NumCPU.
use gfire.Prelude.{
  ℕ, ◌*◌, ◌≡◌, refl, String, false, List, [], ◌∷◌, ◌==◌, if◌then◌else◌, arith, is_empty,
}
use gfire.Prelude.Int.{ℤ, pos, leb_ℤ, ltb_ℤ, ◌≤ℤ◌}
use gfire.Prelude.Dict.{Dict, empty}

pub record Config : Type 0 where
  pub server_id : String
  pub workers : ℤ
  pub queues : List String
  pub queue_limits : Dict ℤ
  pub dequeue_timeout : ℤ
  pub default_timeout : ℤ
  pub shutdown_timeout : ℤ
  pub job_heartbeat_interval : ℤ
  pub scheduler_interval : ℤ
  pub scheduler_batch_size : ℤ
  pub server_heartbeat_ttl : ℤ
  pub server_heartbeat_every : ℤ
  pub orphan_job_stale_age : ℤ
  pub cleanup_interval : ℤ
  pub job_retention : ℤ

abbrev pub seconds : ℕ → ℤ
seconds n = pos (n * 1_000_000_000)

abbrev default_workers : ℕ → ℤ
default_workers num_cpu = if ltb_ℤ (pos (num_cpu * 2)) (pos 2) then pos 2 else pos (num_cpu * 2)

-- DefaultConfig
unfoldable pub default_config : ℕ → Config
default_config num_cpu = record {
  server_id = "local";
  workers = default_workers num_cpu;
  queues = "default" ∷ [];
  queue_limits = empty;
  dequeue_timeout = seconds 2;
  default_timeout = seconds 30;
  shutdown_timeout = seconds 30;
  job_heartbeat_interval = seconds 60;
  scheduler_interval = seconds 1;
  scheduler_batch_size = pos 100;
  server_heartbeat_ttl = seconds 30;
  server_heartbeat_every = pos 0;
  orphan_job_stale_age = pos 0;
  cleanup_interval = pos 0;
  job_retention = pos 0;
}

-- A value that is not positive is replaced.
abbrev pub positive_or : ℤ → ℤ → ℤ
positive_or default n = if leb_ℤ n (pos 0) then default else n

-- Config.normalize
unfoldable pub normalize : ℕ → Config → Config
unfolding default_config
normalize num_cpu c = record {
  server_id = if c.server_id == "" then "local" else c.server_id;
  workers = positive_or (default_config num_cpu).workers c.workers;
  queues = if is_empty c.queues then "default" ∷ [] else c.queues;
  queue_limits = c.queue_limits;
  dequeue_timeout = positive_or (seconds 2) c.dequeue_timeout;
  default_timeout = positive_or (seconds 30) c.default_timeout;
  shutdown_timeout = positive_or (seconds 30) c.shutdown_timeout;
  job_heartbeat_interval = positive_or (seconds 60) c.job_heartbeat_interval;
  scheduler_interval = positive_or (seconds 1) c.scheduler_interval;
  scheduler_batch_size = positive_or (pos 100) c.scheduler_batch_size;
  server_heartbeat_ttl = positive_or (seconds 30) c.server_heartbeat_ttl;
  server_heartbeat_every = positive_or (seconds 5) c.server_heartbeat_every;
  orphan_job_stale_age = positive_or (seconds 300) c.orphan_job_stale_age;
  cleanup_interval = c.cleanup_interval;
  job_retention = c.job_retention;
}

-- What the loops of the engine rely on: a worker at least, a queue at least, and tickers with a
-- positive period.
pub record IsUsable (c : Config) : Type 0 where
  pub some_worker : pos 1 ≤ℤ c.workers
  pub some_queue : is_empty c.queues ≡ false
  pub dequeue : pos 1 ≤ℤ c.dequeue_timeout
  pub timeout : pos 1 ≤ℤ c.default_timeout
  pub shutdown : pos 1 ≤ℤ c.shutdown_timeout
  pub job_heartbeat : pos 1 ≤ℤ c.job_heartbeat_interval
  pub scheduler : pos 1 ≤ℤ c.scheduler_interval
  pub batch : pos 1 ≤ℤ c.scheduler_batch_size
  pub ttl : pos 1 ≤ℤ c.server_heartbeat_ttl
  pub every : pos 1 ≤ℤ c.server_heartbeat_every
  pub stale : pos 1 ≤ℤ c.orphan_job_stale_age

positive_or_positive : (default n : ℤ) → pos 1 ≤ℤ default → pos 1 ≤ℤ positive_or default n
positive_or_positive default n h = ground arith

default_workers_positive : (num_cpu : ℕ) → pos 1 ≤ℤ default_workers num_cpu
default_workers_positive num_cpu = ground arith

queues_or_default :
    (qs : List String) → is_empty (if is_empty qs then "default" ∷ [] else qs) ≡ false
queues_or_default [] = refl
queues_or_default (q ∷ qs) = refl

-- Every configuration is usable once it is normalized.
pub normalize-IsUsable : (num_cpu : ℕ) (c : Config) → IsUsable (normalize num_cpu c)
unfolding normalize
normalize-IsUsable num_cpu c = record {
  some_worker = positive_or_positive _ c.workers (default_workers_positive num_cpu);
  some_queue = queues_or_default c.queues;
  dequeue = positive_or_positive (seconds 2) c.dequeue_timeout (omega arith);
  timeout = positive_or_positive (seconds 30) c.default_timeout (omega arith);
  shutdown = positive_or_positive (seconds 30) c.shutdown_timeout (omega arith);
  job_heartbeat = positive_or_positive (seconds 60) c.job_heartbeat_interval (omega arith);
  scheduler = positive_or_positive (seconds 1) c.scheduler_interval (omega arith);
  batch = positive_or_positive (pos 100) c.scheduler_batch_size (omega arith);
  ttl = positive_or_positive (seconds 30) c.server_heartbeat_ttl (omega arith);
  every = positive_or_positive (seconds 5) c.server_heartbeat_every (omega arith);
  stale = positive_or_positive (seconds 300) c.orphan_job_stale_age (omega arith);
}

positive_or_keeps : (default n : ℤ) → pos 1 ≤ℤ n → positive_or default n ≡ n
positive_or_keeps default n h = ground arith

-- A usable configuration with a server id is left as it is.
pub normalize_fixed :
    (num_cpu : ℕ) (c : Config) → IsUsable c → (c.server_id == "") ≡ false → normalize num_cpu c ≡ c
unfolding normalize
normalize_fixed num_cpu c u named =
    rw
      (
        named,
        positive_or_keeps (default_workers num_cpu) c.workers u.some_worker,
        u.some_queue,
        positive_or_keeps (seconds 2) c.dequeue_timeout u.dequeue,
        positive_or_keeps (seconds 30) c.default_timeout u.timeout,
        positive_or_keeps (seconds 30) c.shutdown_timeout u.shutdown,
        positive_or_keeps (seconds 60) c.job_heartbeat_interval u.job_heartbeat,
        positive_or_keeps (seconds 1) c.scheduler_interval u.scheduler,
        positive_or_keeps (pos 100) c.scheduler_batch_size u.batch,
        positive_or_keeps (seconds 30) c.server_heartbeat_ttl u.ttl,
        positive_or_keeps (seconds 5) c.server_heartbeat_every u.every,
        positive_or_keeps (seconds 300) c.orphan_job_stale_age u.stale,
      )
      refl
