-- ===== src/Redis/Exclusion.antt =====
-- internal/storage/redis/misc.go: the lock.
use mathlib.Core.Bool.{false≢true}
use gfire.Prelude.{◌≡◌, refl, sym, ◌∙◌, eq_iff, String, false, Option, none, some, ◌==◌}
use gfire.Prelude.Int.{ℤ}
use gfire.Prelude.Dict.{eq_self, ne_false}
use gfire.Prelude.Result.{ok, err, err_lock_not_held}
use gfire.Job.{Runtime}
use gfire.Redis.{Redis, Command, quiet}
use gfire.Redis.Keys.{lock_key}
use gfire.Redis.Locks.{RedisLock, acquire_lock, release, release_script}

module _ (r : Redis) (resource : String) where
  -- The owner that the server has for the resource.
  abbrev pub owner : r.Db → Option String
  owner d = (r.view d).texts (lock_key resource)

  -- The lock that AcquireLock returns to an owner.
  abbrev pub lock_of : String → RedisLock
  lock_of x = record { resource = resource; owner_id = x }

  -- While a resource has an owner on the server, no AcquireLock of it succeeds and nothing changes.
  acquire_taken :
      (rt : Runtime) (ttl : ℤ) (d : r.Db) (x : String)
      → owner d ≡ some x
      → acquire_lock r quiet rt resource ttl d ≡ (err err_lock_not_held, d)
  unfolding acquire_lock
  acquire_taken rt ttl d x e = rw (r.set_nx_taken (lock_key resource) (rt.uuid 0) x ttl d e) refl

  -- A release by anyone but the owner changes nothing.
  release_other :
      (d : r.Db) (x other : String)
      → owner d ≡ some x
      → (x == other) ≡ false
      → release r quiet (lock_of other) d ≡ (err err_lock_not_held, d)
  unfolding release release_script
  release_other d x other e f = rw (release_script, e, f) refl

  -- AcquireLock of a free resource makes the caller its owner.
  acquire_free :
      (rt : Runtime) (ttl : ℤ) (d : r.Db)
      → owner d ≡ none
      → (d1 : r.Db) × (acquire_lock r quiet rt resource ttl d ≡ (ok (lock_of (rt.uuid 0)), d1))
        × (owner d1 ≡ some (rt.uuid 0))
  unfolding acquire_lock
  acquire_free rt ttl d e =
      let free = r.set_nx_free (lock_key resource) (rt.uuid 0) ttl d e in
      (
        (r.set_nx (lock_key resource) (rt.uuid 0) ttl d).1,
        rw free.0 refl,
        rw (owner, free.1, eq_self (lock_key resource)) refl,
      )

  -- The owner's release frees the resource.
  release_owned :
      (x : String) (d : r.Db)
      → owner d ≡ some x
      → (d2 : r.Db) × (release r quiet (lock_of x) d ≡ (ok tt, d2)) × (owner d2 ≡ none)
  unfolding release release_script
  release_owned x d e = (
    r.apply (Command.del (lock_key resource)) d,
    rw (release_script, e, eq_self x) refl,
    rw (owner, r.apply_law (Command.del (lock_key resource)) d, eq_self (lock_key resource)) refl,
  )

  -- Two nodes with different owner ids at a free resource, on unbroken connections and before any
  -- lock expires. The first node's AcquireLock succeeds; the other's AcquireLock, and a Release
  -- under its owner id, are then refused and change nothing. The first node's Release succeeds and
  -- the other's AcquireLock after it too. A second Release of the first node's lock is refused and
  -- changes nothing, so the other node still owns the resource, and its own Release frees it.
  pub lock_excludes :
      (rt rt' : Runtime) (ttl ttl' : ℤ) (d : r.Db)
      → owner d ≡ none
      → (rt.uuid 0 == rt'.uuid 0) ≡ false
      → let a = lock_of (rt.uuid 0) in
        let b = lock_of (rt'.uuid 0) in
        (d1 : r.Db) × (d2 : r.Db) × (d3 : r.Db) × (d4 : r.Db) × (acquire_lock r quiet rt resource
            ttl d
          ≡ (ok a, d1))
        × (acquire_lock r quiet rt' resource ttl' d1 ≡ (err err_lock_not_held, d1))
        × (release r quiet b d1 ≡ (err err_lock_not_held, d1))
        × (release r quiet a d1 ≡ (ok tt, d2))
        × (acquire_lock r quiet rt' resource ttl' d2 ≡ (ok b, d3))
        × (release r quiet a d3 ≡ (err err_lock_not_held, d3))
        × (owner d3 ≡ some (rt'.uuid 0))
        × (release r quiet b d3 ≡ (ok tt, d4))
        × (owner d4 ≡ none)
  lock_excludes rt rt' ttl ttl' d free apart =
      let (d1, got, mine) = acquire_free rt ttl d free in
      let (d2, gave, open_again) = release_owned (rt.uuid 0) d1 mine in
      let (d3, got', theirs) = acquire_free rt' ttl' d2 open_again in
      let (d4, gave', open_last) = release_owned (rt'.uuid 0) d3 theirs in
      (
        d1,
        d2,
        d3,
        d4,
        got,
        acquire_taken rt' ttl' d1 (rt.uuid 0) mine,
        release_other d1 (rt.uuid 0) (rt'.uuid 0) mine apart,
        gave,
        got',
        release_other d3 (rt'.uuid 0) (rt.uuid 0) theirs (sym_false apart),
        theirs,
        gave',
        open_last,
      )
    where
      sym_false : (rt.uuid 0 == rt'.uuid 0) ≡ false → (rt'.uuid 0 == rt.uuid 0) ≡ false
      sym_false h =
          ne_false (rt'.uuid 0) (rt.uuid 0)
            (λ p. absurd (false≢true (sym h ∙ (eq_iff (rt.uuid 0) (rt'.uuid 0)).1 (sym p))))
