-- ===== src/Engine/Recurring.antt =====
-- internal/engine/recurring.go over the in-memory store: the manager that keeps the cron scheduler in
-- step with the recurring definitions, and the callback that a tick of the scheduler runs.
pub mod Reload
pub mod Callbacks
pub mod Firing
use gfire.Prelude.{
  ℕ, ◌≡◌, ◌≢◌, ◌⊎◌, String, Bool, true, false, Option, none, some, List, [], ◌∷◌, ◌==◌,
  if◌then◌else◌, is_empty,
}
use gfire.Prelude.Int.{ℤ, pos}
use gfire.Prelude.Text.{◌<>◌}
use gfire.Prelude.Dict.{Dict, insert, erase}
use gfire.Prelude.Result.{Result, ok, err, fault}
use gfire.Job.{Job, RecurringJobEntry, Runtime}
use gfire.Memory.{Store, MemoryLock}
use gfire.Memory.Queues.{enqueue}
use gfire.Memory.Query.{get_recurring_jobs}
use gfire.Memory.Locks.{acquire_lock, release}
use gfire.Memory.Recurring.{update_recurring_last_run}
use gfire.Engine.Worker.{queue_or_default}

-- cron.Cron of github.com/robfig/cron: AddFunc, whose callback the definition fixes, and Remove.
-- `callback` is the definition whose callback an entry runs. AddFunc registers its callback under
-- an identifier that no entry has, and Remove deletes the entry.
pub record Cron : Type 1 where
  pub State : Type 0
  pub EntryId : Type 0
  pub callback : EntryId → State → Option RecurringJobEntry
  pub add_func : String → RecurringJobEntry → State → Option (EntryId × State)
  pub remove : EntryId → State → State
  pub add_func_law :
      (expr : String) (entry : RecurringJobEntry) (s t : State) (id : EntryId)
      → add_func expr entry s ≡ some (id, t)
      → (callback id t ≡ some entry)
        × ((j : EntryId) (e : RecurringJobEntry)
            → callback j t ≡ some e
            → ((j ≡ id) × (e ≡ entry)) ⊎ (callback j s ≡ some e))
  pub remove_law :
      (id j : EntryId) (s : State) (e : RecurringJobEntry)
      → callback j (remove id s) ≡ some e
      → (j ≢ id) × (callback j s ≡ some e)

-- recurringManager, without its store and its logger.
pub record Manager (c : Cron) : Type 0 where
  pub cron : c.State
  pub entries : Dict c.EntryId

module _ (c : Cron) where
  abbrev pub added : Option (c.EntryId × c.State) → RecurringJobEntry → Manager c → Manager c
  added none entry m = m
  added (some (id, cron')) entry m = record { cron = cron'; entries = insert entry.id id m.entries }

  -- schedule
  unfoldable pub schedule : RecurringJobEntry → Manager c → Manager c
  schedule entry m = added (c.add_func entry.cron_expr entry m.cron) entry m

  abbrev pub removed : Option c.EntryId → String → Manager c → Manager c
  removed none id m = m
  removed (some cron_id) id m = record {
    cron = c.remove cron_id m.cron;
    entries = erase id m.entries;
  }

  -- unschedule
  unfoldable pub unschedule : String → Manager c → Manager c
  unschedule id m = removed (m.entries id) id m

  -- loadAll, for the definitions that GetRecurringJobs returns
  unfoldable pub load_all : List RecurringJobEntry → Manager c → Manager c
  load_all [] m = m
  load_all (entry ∷ defs) m = load_all defs (if entry.enabled then schedule entry m else m)

  abbrev pub schedule_new : Option c.EntryId → RecurringJobEntry → Manager c → Manager c
  schedule_new none entry m = schedule entry m
  schedule_new (some cron_id) entry m = m

  -- One turn of reload's first loop.
  abbrev pub reconcile_one : RecurringJobEntry → Manager c → Manager c
  reconcile_one entry m =
      if entry.enabled then schedule_new (m.entries entry.id) entry m else unschedule entry.id m

  unfoldable pub reconcile : List RecurringJobEntry → Manager c → Manager c
  reconcile [] m = m
  reconcile (entry ∷ defs) m = reconcile defs (reconcile_one entry m)

  -- seen[id]
  unfoldable pub seen : String → List RecurringJobEntry → Bool
  seen id [] = false
  seen id (entry ∷ defs) = if entry.id == id then true else seen id defs

  -- The second loop of reload; `order` is the visit of m.entries, where a key that is not there has
  -- no effect.
  unfoldable pub drop_unseen : List String → List RecurringJobEntry → Manager c → Manager c
  drop_unseen [] defs m = m
  drop_unseen (id ∷ order) defs m =
      drop_unseen order defs (if seen id defs then m else unschedule id m)

  -- reload, for the definitions that GetRecurringJobs returns
  unfoldable pub reload : List String → List RecurringJobEntry → Manager c → Manager c
  unfolding reconcile drop_unseen
  reload order defs m = drop_unseen order defs (reconcile defs m)

abbrev pub recurring_lock_prefix : String
recurring_lock_prefix = "lock:recurring:"

-- 30 * time.Second
abbrev pub recurring_lock_ttl : ℤ
recurring_lock_ttl = pos 30000000000

-- The job of a definition; the fields that Enqueue fills in are zero.
abbrev pub recurring_job : RecurringJobEntry → Job
recurring_job entry = record {
  id = "";
  name = entry.job_name;
  args = if is_empty entry.args then 123 ∷ 125 ∷ [] else entry.args;
  queue = queue_or_default entry.queue;
  retry_max = pos 0;
  timeout = pos 0;
  idempotency_key = "";
  created_at = 0;
  result = [];
}

abbrev pub or_time : Option ℕ → ℕ → ℕ
or_time none now = now
or_time (some t) now = t

abbrev pub or_unchanged : Result Store → Store → Store
or_unchanged (ok t) s = t
or_unchanged (err e) s = s
or_unchanged fault s = s

abbrev pub after_release : Result (MemoryLock × Store) → Store → Store
after_release (ok (l, t)) s = t
after_release (err e) s = s
after_release fault s = s

-- What a callback takes from outside: the environments of its three calls, its own reading of
-- time.Now, and NextRecurringRun of internal/job/cronexpr.go, which asks the cron package.
pub record Tick : Type 0 where
  pub runtimes : ℕ → Runtime
  pub now : ℕ
  pub next_recurring_run : String → ℕ → Option ℕ

-- The end of fireFunc's body, where an error is logged.
abbrev pub mark_run : Tick → RecurringJobEntry → Store → Store
mark_run tick entry t =
    or_unchanged
      (update_recurring_last_run (tick.runtimes 2) entry.id tick.now
        (or_time (tick.next_recurring_run entry.cron_expr tick.now) tick.now) t)
      t

-- fireFunc between AcquireLock and the deferred Release.
abbrev pub enqueue_entry : Tick → RecurringJobEntry → Store → Store
enqueue_entry tick entry s =
    mark_run tick entry
      (enqueue (tick.runtimes 1) (queue_or_default entry.queue) (recurring_job entry) s).1

abbrev pub with_lock : Result (MemoryLock × Store) → Tick → RecurringJobEntry → Store → Store
with_lock (ok (lock, t)) tick entry s =
    let u : Store = enqueue_entry tick entry t in after_release (release lock u) u
with_lock (err e) tick entry s = s
with_lock fault tick entry s = s

-- fireFunc
unfoldable pub fire : Tick → RecurringJobEntry → Store → Store
fire tick entry s =
    with_lock
      (acquire_lock (tick.runtimes 0) (recurring_lock_prefix <> entry.id) recurring_lock_ttl s) tick
      entry s
