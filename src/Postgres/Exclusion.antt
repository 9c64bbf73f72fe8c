-- ===== src/Postgres/Exclusion.antt =====
-- internal/storage/postgres/misc.go: who holds a lock.
use gfire.Prelude.{ℕ, ◌≡◌, refl, String, false, some, ltb, ◌==◌}
use gfire.Prelude.Int.{ℤ}
use gfire.Prelude.Result.{err, err_lock_not_held}
use gfire.Job.{Runtime}
use gfire.Postgres.{Tables, quiet}
use gfire.Postgres.Locks.{acquire_lock, release}

-- While a resource has an owner whose time, by the server's clock, is not over, AcquireLock of it is
-- refused and changes nothing, and so is Release of a lock of the resource by anyone else.
pub held_excludes :
    (rt : Runtime) (now expires : ℕ) (resource owner other : String) (ttl : ℤ) (t : Tables)
    → t.locks resource ≡ some (owner, expires)
    → ltb expires now ≡ false
    → (owner == other) ≡ false
    → (acquire_lock quiet rt now resource ttl t ≡ (err err_lock_not_held, t))
      × (release quiet (record { resource = resource; owner_id = other }) t
          ≡ (err err_lock_not_held, t))
unfolding acquire_lock release
held_excludes rt now expires resource owner other ttl t e l o =
    (rw (acquire_lock, e, l, e) refl, rw (release, e, o) refl)
