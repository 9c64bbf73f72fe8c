-- ===== src/Memory/Calls.antt =====
-- The methods of memory.go that write, as the calls of one history of the store, and what each
-- leaves of the store. A call that returns an error leaves the store alone; a fault ends the program.
pub mod Safety
pub mod Live
pub mod Append
use gfire.Prelude.{ℕ, ◌≡◌, String, Bool, true, false, Option, none, some, List, [], ◌∷◌}
use gfire.Prelude.Int.{ℤ}
use gfire.Prelude.Result.{Result, ok, err, fault, ◌>>=◌}
use gfire.Job.{Job, JobState, Runtime, ServerInfo, RecurringJobEntry, ContinuationEntry, JobTicket}
use gfire.Memory.{Store, MemoryLock}
use gfire.Memory.Queues
use gfire.Memory.States
use gfire.Memory.Registry
use gfire.Memory.Scheduled
use gfire.Memory.Recurring
use gfire.Memory.Locks
use gfire.Memory.Maintenance

pub data Call : Type 0 where
  enqueue enqueue_idempotent : Runtime → String → Job → Call
  dequeue_pass : Runtime → List String → Call
  requeue : Runtime → String → String → Call
  apply_state : Runtime → String → String → JobState → Call
  schedule_retry : Runtime → String → ℕ → Call
  set_job_result : String → List ℕ → Call
  heartbeat_job : Runtime → String → Call
  delete_job : Runtime → String → Call
  register_server : Runtime → ServerInfo → ℤ → Call
  unregister_server : String → Call
  heartbeat : Runtime → String → ℤ → Call
  add_scheduled : Runtime → ℕ → Job → Call
  get_due_scheduled : Runtime → List String → ℕ → ℤ → Call
  remove_scheduled : String → Call
  upsert_recurring : Runtime → RecurringJobEntry → Call
  remove_recurring : String → Call
  update_recurring_last_run : Runtime → String → ℕ → ℕ → Call
  add_continuation : Runtime → String → ContinuationEntry → Call
  remove_continuations : String → Call
  increment_counter : String → ℤ → Call
  acquire_lock : Runtime → String → ℤ → Call
  release : MemoryLock → Call
  remove_expired : List String → ℕ → Call

abbrev pub left {ℓ} : {A : Type ℓ} → Result (A × Store) → Result Store
left (ok (a, s)) = ok s
left (err e) = err e
left fault = fault

-- The store that a call leaves.
unfoldable pub perform : Call → Store → Result Store
perform (enqueue rt q job) s = ok (Queues.enqueue rt q job s).1
perform (enqueue_idempotent rt q job) s = ok (Queues.enqueue_idempotent rt q job s).2
perform (dequeue_pass rt qs) s = left (Queues.dequeue_pass rt true qs s)
perform (requeue rt id reason) s = Queues.requeue rt id reason s
perform (apply_state rt id expected st) s = States.apply_state rt id expected st s
perform (schedule_retry rt id at) s = States.schedule_retry rt id at s
perform (set_job_result id result) s = States.set_job_result id result s
perform (heartbeat_job rt id) s = States.heartbeat_job rt id s
perform (delete_job rt id) s = States.delete_job rt id s
perform (register_server rt sv ttl) s = ok (Registry.register_server rt sv ttl s)
perform (unregister_server id) s = ok (Registry.unregister_server id s)
perform (heartbeat rt id ttl) s = Registry.heartbeat rt id ttl s
perform (add_scheduled rt at job) s = ok (Scheduled.add_scheduled rt at job s).1
perform (get_due_scheduled rt order now batch) s =
    left (Scheduled.get_due_scheduled rt order now batch s)
perform (remove_scheduled id) s = ok (Scheduled.remove_scheduled id s)
perform (upsert_recurring rt entry) s = ok (Recurring.upsert_recurring rt entry s)
perform (remove_recurring id) s = ok (Recurring.remove_recurring id s)
perform (update_recurring_last_run rt id last next) s =
    Recurring.update_recurring_last_run rt id last next s
perform (add_continuation rt parent entry) s = ok (Recurring.add_continuation rt parent entry s)
perform (remove_continuations parent) s = ok (Recurring.remove_continuations parent s)
perform (increment_counter key delta) s = ok (Recurring.increment_counter key delta s)
perform (acquire_lock rt resource ttl) s = left (Locks.acquire_lock rt resource ttl s)
perform (release l) s = left (Locks.release l s)
perform (remove_expired order cutoff) s = ok (Maintenance.remove_expired order cutoff s).1

-- A history of calls; a call that returns an error is skipped, a fault ends the run.
unfoldable pub run : List Call → Store → Result Store
run [] s = ok s
run (c ∷ cs) s = elim (perform c s) [ ok s' ↦ run cs s' | err e ↦ run cs s | fault ↦ fault ]

-- What holds of the store that a call leaves, when it leaves one.
abbrev pub Keeps : (Store → Type 0) → Result Store → Type 0
Keeps P (ok s) = P s
Keeps P (err e) = Unit
Keeps P fault = Unit

-- The same, and the call does not crash.
abbrev pub Safe : (Store → Type 0) → Result Store → Type 0
Safe P (ok s) = P s
Safe P (err e) = Unit
Safe P fault = ⊥
