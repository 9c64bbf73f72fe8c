-- ===== src/Engine/Recurring/Firing.antt =====
-- What a tick of a recurring definition does to the store, fireFunc of internal/engine/recurring.go.
use gfire.Prelude.{
  ◌≡◌, refl, subst, ◌∙◌, sym, ap, String, true, false, none, [], ◌∷◌, ◌++◌, Option-cases, inl, inr,
}
use gfire.Prelude.Dict.{eq_self, insert, erase}
use gfire.Prelude.Text.{◌<>◌}
use gfire.Job.{RecurringJobEntry}
use gfire.Memory.{Store, MemoryLock, read_list}
use gfire.Memory.Queues.{enqueue, insert_job, prepare}
use gfire.Memory.Locks.{acquire_lock, release, is_held, fresh_lock}
use gfire.Memory.Recurring.{update_recurring_last_run}
use gfire.Engine.Worker.{queue_or_default}
use gfire.Engine.Recurring.{
  Tick, fire, enqueue_entry, mark_run, after_release, recurring_lock_prefix, recurring_lock_ttl,
  recurring_job,
}

-- The resource that a definition locks.
abbrev pub resource_of : RecurringJobEntry → String
resource_of entry = recurring_lock_prefix <> entry.id

mark_run_locks :
    (tick : Tick) (entry : RecurringJobEntry) (s : Store) → (mark_run tick entry s).locks ≡ s.locks
unfolding update_recurring_last_run
mark_run_locks tick entry s = elim (Option-cases (s.recurring entry.id)) [
  | inl e ↦ rw (update_recurring_last_run, e) refl
  | inr (x, e) ↦ rw (update_recurring_last_run, e) refl
]

mark_run_queues :
    (tick : Tick) (entry : RecurringJobEntry) (s : Store)
    → (mark_run tick entry s).queues ≡ s.queues
unfolding update_recurring_last_run
mark_run_queues tick entry s = elim (Option-cases (s.recurring entry.id)) [
  | inl e ↦ rw (update_recurring_last_run, e) refl
  | inr (x, e) ↦ rw (update_recurring_last_run, e) refl
]

enqueue_entry_locks :
    (tick : Tick) (entry : RecurringJobEntry) (s : Store)
    → (enqueue_entry tick entry s).locks ≡ s.locks
unfolding enqueue insert_job
enqueue_entry_locks tick entry s =
    mark_run_locks tick entry
      (enqueue (tick.runtimes 1) (queue_or_default entry.queue) (recurring_job entry) s).1

enqueue_entry_queue :
    (tick : Tick) (entry : RecurringJobEntry) (s : Store)
    → read_list (queue_or_default entry.queue) (enqueue_entry tick entry s).queues
      ≡ read_list (queue_or_default entry.queue) s.queues
        ++ (prepare (tick.runtimes 1) (recurring_job entry)).id ∷ []
unfolding enqueue insert_job
enqueue_entry_queue tick entry s =
    ap (read_list (queue_or_default entry.queue)) (
      mark_run_queues tick entry
        (enqueue (tick.runtimes 1) (queue_or_default entry.queue) (recurring_job entry) s).1)
    ∙ rw (eq_self (queue_or_default entry.queue)) refl

-- What the deferred Release does to a lock that the store has as its own.
release_own :
    (l : MemoryLock) (u s : Store)
    → u.locks ≡ insert l.resource l s.locks
    → l.released ≡ false
    → (after_release (release l u) u) ≡ record u { locks = erase l.resource u.locks }
unfolding release
release_own l u s e f = rw (f, e, eq_self l.resource, eq_self l.owner_id) refl

-- A tick changes nothing while a lock of the definition has not expired.
pub fire_excluded :
    (tick : Tick) (entry : RecurringJobEntry) (s : Store)
    → is_held (s.locks (resource_of entry)) ((tick.runtimes 0).clock 0) ≡ true
    → fire tick entry s ≡ s
unfolding fire acquire_lock
fire_excluded tick entry s h = rw h refl

-- A tick of a recurring definition that finds no unexpired lock queues one job and leaves the
-- resource without a lock.
pub fire_unlocks :
    (tick : Tick) (entry : RecurringJobEntry) (s : Store)
    → is_held (s.locks (resource_of entry)) ((tick.runtimes 0).clock 0) ≡ false
    → ((fire tick entry s).locks (resource_of entry) ≡ none)
      × (read_list (queue_or_default entry.queue) (fire tick entry s).queues
          ≡ read_list (queue_or_default entry.queue) s.queues
            ++ (prepare (tick.runtimes 1) (recurring_job entry)).id ∷ [])
unfolding fire acquire_lock
fire_unlocks tick entry s h = rw h (
    subst
      (λ (u : Store).
        (u.locks (resource_of entry) ≡ none)
        × (read_list (queue_or_default entry.queue) u.queues
            ≡ read_list (queue_or_default entry.queue) s.queues
              ++ (prepare (tick.runtimes 1) (recurring_job entry)).id ∷ []))
      (sym
        (release_own lock (enqueue_entry tick entry t) s (enqueue_entry_locks tick entry t) refl))
      (rw (eq_self (resource_of entry)) refl, enqueue_entry_queue tick entry t))
  where
    lock : MemoryLock
    lock = fresh_lock (tick.runtimes 0) (resource_of entry) recurring_lock_ttl

    t : Store
    t = record s { locks = insert (resource_of entry) lock s.locks }
