-- ===== src/Memory/Exclusion.antt =====
-- The distributed lock of memory.go: who holds it, and until when.
use gfire.Prelude.{
  ◌≡◌, ◌≢◌, ◌<◌, refl, sym, ap, subst, String, true, false, none, some, Bool-cases, inl, inr,
  lt→ltb,
}
use gfire.Prelude.Int.{ℤ}
use gfire.Prelude.Dict.{eq_self, ne_false, insert, erase}
use gfire.Prelude.Result.{ok, err, err_lock_not_held, ok_path}
use gfire.Job.{Runtime}
use gfire.Memory.{Store, MemoryLock}
use gfire.Memory.Locks.{acquire_lock, release, fresh_lock, is_held}

pub acquire_lock_inv :
    (rt : Runtime) (r : String) (ttl : ℤ) (s t : Store) (l : MemoryLock)
    → acquire_lock rt r ttl s ≡ ok (l, t)
    → (fresh_lock rt r ttl ≡ l) × (record s { locks = insert r (fresh_lock rt r ttl) s.locks } ≡ t)
unfolding acquire_lock
acquire_lock_inv rt r ttl s t l h = elim (Bool-cases (is_held (s.locks r) (rt.clock 0))) [
  | inl e ↦ cc (rw e at h)
  | inr e ↦
      let same : (fresh_lock rt r ttl, record s { locks = insert r (fresh_lock rt r ttl) s.locks })
          ≡ (l, t) =
        ok_path _ _ (rw e at h) in
      (ap (λ x. x.0) same, ap (λ x. x.1) same)
]

-- After a successful AcquireLock, and before the lock expires, every AcquireLock of the resource
-- is refused; the locks of other resources are as before.
pub acquire_lock_excludes :
    (rt rt' : Runtime) (r : String) (ttl ttl' : ℤ) (s t : Store) (l : MemoryLock)
    → acquire_lock rt r ttl s ≡ ok (l, t)
    → rt'.clock 0 < l.expires_at
    → (acquire_lock rt' r ttl' t ≡ err err_lock_not_held)
      × ((r' : String) → r ≢ r' → t.locks r' ≡ s.locks r')
unfolding acquire_lock
acquire_lock_excludes rt rt' r ttl ttl' s t l h before =
    let (lock, same) = acquire_lock_inv rt r ttl s t l h in
    let entry : t.locks r ≡ some l =
      subst (λ (x : Store). x.locks r ≡ some l) same (rw (eq_self r) (ap some lock)) in
    (
      rw (entry, lt→ltb (rt'.clock 0) l.expires_at before) refl,
      λ r' ne. subst (λ (x : Store). x.locks r' ≡ s.locks r') same (rw (ne_false r r' ne) refl),
    )

-- After AcquireLock, Release succeeds and frees the resource: a second Release with the returned
-- lock is refused, and every AcquireLock of the resource succeeds.
pub acquire_lock-release :
    (rt rt' : Runtime) (r : String) (ttl ttl' : ℤ) (s t : Store) (l : MemoryLock)
    → acquire_lock rt r ttl s ≡ ok (l, t)
    → (l' : MemoryLock) × (u : Store) × (release l t ≡ ok (l', u))
      × (u.locks r ≡ none)
      × (release l' u ≡ err err_lock_not_held)
      × (acquire_lock rt' r ttl' u
          ≡ ok (
            fresh_lock rt' r ttl',
            record u { locks = insert r (fresh_lock rt' r ttl') u.locks },
          ))
unfolding acquire_lock release
acquire_lock-release rt rt' r ttl ttl' s t l h =
    let (lock, same) = acquire_lock_inv rt r ttl s t l h in
    let entry : t.locks r ≡ some l =
      subst (λ (x : Store). x.locks r ≡ some l) same (rw (eq_self r) (ap some lock)) in
    let resource : l.resource ≡ r = sym (ap (λ (x : MemoryLock). x.resource) lock) in
    let unreleased : l.released ≡ false = sym (ap (λ (x : MemoryLock). x.released) lock) in
    (
      record l { released = true },
      record t { locks = erase r t.locks },
      rw (unreleased, resource, entry, eq_self l.owner_id, release) refl,
      rw (eq_self r) refl,
      refl,
      rw (eq_self r) refl,
    )

-- If a resource is acquired a second time, by an owner with another id, the Release of the first
-- lock is refused.
pub release_after_expiry :
    (rt rt' : Runtime) (r : String) (ttl ttl' : ℤ) (s t u : Store) (l l' : MemoryLock)
    → acquire_lock rt r ttl s ≡ ok (l, t)
    → acquire_lock rt' r ttl' t ≡ ok (l', u)
    → rt.uuid 0 ≢ rt'.uuid 0
    → release l u ≡ err err_lock_not_held
unfolding acquire_lock release
release_after_expiry rt rt' r ttl ttl' s t u l l' h h' ne =
    let (lock, _) = acquire_lock_inv rt r ttl s t l h in
    let (lock', same') = acquire_lock_inv rt' r ttl' t u l' h' in
    let entry : u.locks r ≡ some (fresh_lock rt' r ttl') =
      subst (λ (x : Store). x.locks r ≡ some (fresh_lock rt' r ttl')) same' (rw (eq_self r) refl) in
    subst (λ (x : MemoryLock). release x u ≡ err err_lock_not_held) lock
      (rw (entry, ne_false (rt'.uuid 0) (rt.uuid 0) (λ e. ne (sym e)), release) refl)
