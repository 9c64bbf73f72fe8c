-- ===== src/Redis/Locks.antt =====
-- internal/storage/redis/misc.go: the distributed lock.
use gfire.Prelude.{String, Bool, true, false, Option, none, some, ◌==◌, if◌then◌else◌}
use gfire.Prelude.Int.{ℤ}
use gfire.Prelude.Result.{Result, ok, err, err_lock_not_held}
use gfire.Job.{Runtime}
use gfire.Redis.{Redis, Command, World, call}
use gfire.Redis.Keys.{lock_key}

-- redisLock, without its client
pub record RedisLock : Type 0 where
  pub resource : String
  pub owner_id : String

abbrev is_owner : Option String → String → Bool
is_owner none owner = false
is_owner (some x) owner = x == owner

module _ (r : Redis) where
  open r use {Db, view, apply, set_nx}

  abbrev taken : String → String → Bool × Db → Result RedisLock × Db
  taken resource owner (true, d) = (ok (record { resource = resource; owner_id = owner }), d)
  taken resource owner (false, d) = (err err_lock_not_held, d)

  -- Storage.AcquireLock
  unfoldable pub acquire_lock : World Db → Runtime → String → ℤ → Db → Result RedisLock × Db
  acquire_lock w rt resource ttl d =
      call r w 0 (set_nx (lock_key resource) (rt.uuid 0) ttl) d (taken resource (rt.uuid 0))

  -- releaseLockScript; false stands for 0.
  unfoldable pub release_script : RedisLock → Db → Bool × Db
  release_script l d =
      if is_owner ((view d).texts (lock_key l.resource)) l.owner_id
      then (true, apply (Command.del (lock_key l.resource)) d)
      else (false, d)

  abbrev released : Bool × Db → Result (Unit {0}) × Db
  released (true, d) = (ok tt, d)
  released (false, d) = (err err_lock_not_held, d)

  -- redisLock.Release
  unfoldable pub release : World Db → RedisLock → Db → Result (Unit {0}) × Db
  unfolding release_script
  release w l d = call r w 0 (release_script l) d released
