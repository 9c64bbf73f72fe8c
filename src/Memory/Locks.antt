-- ===== src/Memory/Locks.antt =====
-- The section "Distributed Lock" of memory.go. A lock that a caller holds is a value of its own,
-- whose `released` only its owner reads; the store's entry is read for its owner and its expiry.
use gfire.Prelude.{ℕ, String, Bool, true, false, Option, none, some, ◌==◌, ltb, if◌then◌else◌}
use gfire.Prelude.Int.{ℤ}
use gfire.Prelude.Dict.{insert, erase}
use gfire.Prelude.Result.{Result, ok, err, err_lock_not_held}
use gfire.Job.{Runtime}
use gfire.Memory.{Store, MemoryLock}
use gfire.Memory.Query.{add_time}

-- Whether the entry of a resource keeps others out at a time.
abbrev pub is_held : Option MemoryLock → ℕ → Bool
is_held none now = false
is_held (some l) now = ltb now l.expires_at

abbrev pub fresh_lock : Runtime → String → ℤ → MemoryLock
fresh_lock rt resource ttl = record {
  resource = resource;
  owner_id = rt.uuid 0;
  expires_at = add_time (rt.clock 1) ttl;
  released = false;
}

-- Storage.AcquireLock
unfoldable pub acquire_lock : Runtime → String → ℤ → Store → Result (MemoryLock × Store)
acquire_lock rt resource ttl s =
    let lock : MemoryLock = fresh_lock rt resource ttl in
    if is_held (s.locks resource) (rt.clock 0)
    then err err_lock_not_held
    else ok (lock, record s { locks = insert resource lock s.locks })

abbrev pub is_owner : Option MemoryLock → String → Bool
is_owner none owner = false
is_owner (some l) owner = l.owner_id == owner

-- memoryLock.Release
unfoldable pub release : MemoryLock → Store → Result (MemoryLock × Store)
release l s =
    if l.released
    then err err_lock_not_held
    else if is_owner (s.locks l.resource) l.owner_id
    then ok (record l { released = true }, record s { locks = erase l.resource s.locks })
    else err err_lock_not_held
