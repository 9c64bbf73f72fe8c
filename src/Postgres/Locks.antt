-- ===== src/Postgres/Locks.antt =====
-- internal/storage/postgres/misc.go: the distributed lock. `now` is the server's clock.
use gfire.Prelude.{ℕ, String, Bool, false, Option, none, some, ◌==◌, ltb, if◌then◌else◌}
use gfire.Prelude.Int.{ℤ}
use gfire.Prelude.Dict.{insert, erase, is_some}
use gfire.Prelude.Result.{Result, ok, err, err_lock_not_held, err_backend}
use gfire.Job.{Runtime}
use gfire.Memory.Query.{add_time}
use gfire.Postgres.{Tables, Session, exec, transaction}

-- pgLock, without its store
pub record PgLock : Type 0 where
  pub resource : String
  pub owner_id : String

abbrev pub is_over : Option (String × ℕ) → ℕ → Bool
is_over none now = false
is_over (some (owner, expires)) now = ltb expires now

-- DELETE FROM gfire.locks WHERE resource = $1 AND expires_at < now()
abbrev pub drop_over : String → ℕ → Tables → Tables
drop_over resource now t =
    if is_over (t.locks resource) now then record t { locks = erase resource t.locks } else t

-- The transaction of AcquireLock. Its first error is not looked at, but the server refuses what
-- follows in a transaction that has failed.
abbrev pub acquire_lock_tx : Session → Runtime → ℕ → String → ℤ → Tables → Result (PgLock × Tables)
acquire_lock_tx w rt now resource ttl t = exec w 1 (drop_over resource now) t (λ t1.
    if w.fails 2
    then err err_backend
    else if is_some (t1.locks resource)
    then err err_lock_not_held
    else ok (
      record { resource = resource; owner_id = rt.uuid 0 },
      record t1 { locks = insert resource (rt.uuid 0, add_time (rt.clock 0) ttl) t1.locks },
    ))

-- Storage.AcquireLock
unfoldable pub acquire_lock : Session → Runtime → ℕ → String → ℤ → Tables → Result PgLock × Tables
acquire_lock w rt now resource ttl t = transaction w (acquire_lock_tx w rt now resource ttl) t

abbrev pub is_owner : Option (String × ℕ) → String → Bool
is_owner none owner = false
is_owner (some (x, expires)) owner = x == owner

-- pgLock.Release
unfoldable pub release : Session → PgLock → Tables → Result (Unit {0}) × Tables
release w l t =
    if w.fails 0
    then (err err_backend, t)
    else if is_owner (t.locks l.resource) l.owner_id
    then (ok tt, record t { locks = erase l.resource t.locks })
    else (err err_lock_not_held, t)
