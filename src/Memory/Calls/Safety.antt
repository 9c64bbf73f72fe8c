-- ===== src/Memory/Calls/Safety.antt =====
-- Consistency of the store and crashes under the calls of memory.go.
mod Methods
mod Passage
use gfire.Prelude.{ℕ, ◌≡◌, refl, String, Bool, true, false, List, [], ◌∷◌, inl, inr}
use gfire.Prelude.Result.{Result, ok, err, fault}
use gfire.Memory.{Store, new}
use gfire.Memory.Queues
use gfire.Memory.States
use gfire.Memory.Registry
use gfire.Memory.Scheduled
use gfire.Memory.Recurring
use gfire.Memory.Locks
use gfire.Memory.Maintenance
use gfire.Memory.WellFormed.{IsWellFormed, new-IsWellFormed, unschedule-Consistent}
use gfire.Memory.Calls.{Call, perform, run, left, Keeps, Safe}
use Methods

abbrev pub is_dequeue : Call → Bool
is_dequeue (Call.dequeue_pass rt qs) = true
is_dequeue _ = false

-- A consistent store is consistent after every call of a method that writes but Dequeue, and the
-- call does not crash.
pub perform-Safe :
    (c : Call) (s : Store) → is_dequeue c ≡ false → IsWellFormed s → Safe IsWellFormed (perform c s)
unfolding perform Queues.enqueue Maintenance.remove_expired Registry.register_server
    Registry.unregister_server Registry.heartbeat Scheduled.remove_scheduled
    Recurring.upsert_recurring Recurring.remove_recurring Recurring.update_recurring_last_run
    Recurring.add_continuation Recurring.remove_continuations Recurring.increment_counter
    Locks.acquire_lock Locks.release
perform-Safe (Call.enqueue rt q job) s h w = Passage.insert_job-IsWellFormed rt q _ s w
perform-Safe (Call.enqueue_idempotent rt q job) s h w =
    Passage.enqueue_idempotent-IsWellFormed rt q job s w
perform-Safe (Call.dequeue_pass rt qs) s h w = cc
perform-Safe (Call.requeue rt id reason) s h w = Methods.requeue-Safe rt id reason s w
perform-Safe (Call.apply_state rt id expected st) s h w =
    Methods.apply_state-Safe rt id expected st s w
perform-Safe (Call.schedule_retry rt id at) s h w = Methods.schedule_retry-Safe rt id at s w
perform-Safe (Call.set_job_result id result) s h w = Methods.set_job_result-Safe id result s w
perform-Safe (Call.heartbeat_job rt id) s h w = Methods.heartbeat_job-Safe rt id s w
perform-Safe (Call.delete_job rt id) s h w = Methods.delete_job-Safe rt id s w
perform-Safe (Call.register_server rt sv ttl) s h w = w
perform-Safe (Call.unregister_server id) s h w = w
perform-Safe (Call.heartbeat rt id ttl) s h w = Passage.heartbeat-Safe rt id ttl s w
perform-Safe (Call.add_scheduled rt at job) s h w = Passage.add_scheduled-IsWellFormed rt at job s w
perform-Safe (Call.get_due_scheduled rt order now batch) s h w =
    Passage.get_due_scheduled-Safe rt order now batch s w
perform-Safe (Call.remove_scheduled id) s h w = unschedule-Consistent id w
perform-Safe (Call.upsert_recurring rt entry) s h w = w
perform-Safe (Call.remove_recurring id) s h w = w
perform-Safe (Call.update_recurring_last_run rt id last next) s h w =
    Passage.update_recurring_last_run-Safe rt id last next s w
perform-Safe (Call.add_continuation rt parent entry) s h w = w
perform-Safe (Call.remove_continuations parent) s h w = w
perform-Safe (Call.increment_counter key delta) s h w = w
perform-Safe (Call.acquire_lock rt resource ttl) s h w =
    Passage.acquire_lock-Safe rt resource ttl s w
perform-Safe (Call.release l) s h w = Passage.release-Safe l s w
perform-Safe (Call.remove_expired order cutoff) s h w =
    Passage.remove_visited-IsWellFormed cutoff order 0 s w

Safe→Keeps : (P : Store → Type 0) (r : Result Store) → Safe P r → Keeps P r
Safe→Keeps P (ok s) h = h
Safe→Keeps P (err e) h = tt
Safe→Keeps P fault h = tt

-- Dequeue, too, leaves a consistent store where it does not crash.
pub perform-Keeps : (c : Call) (s : Store) → IsWellFormed s → Keeps IsWellFormed (perform c s)
unfolding perform
perform-Keeps (Call.dequeue_pass rt qs) s w = Passage.dequeue_pass-Keeps rt qs s w
perform-Keeps c s w = Safe→Keeps IsWellFormed (perform c s) (perform-Safe c s refl w)

after_call :
    (cs : List Call) (s : Store) (r : Result Store)
    → IsWellFormed s
    → Keeps IsWellFormed r
    → ((t : Store) → IsWellFormed t → Keeps IsWellFormed (run cs t))
    → Keeps IsWellFormed (elim r [ ok t ↦ run cs t | err e ↦ run cs s | fault ↦ fault ])
after_call cs s (ok t) w h rest = rest t h
after_call cs s (err e) w h rest = rest s w
after_call cs s fault w h rest = tt

run-Keeps : (cs : List Call) (s : Store) → IsWellFormed s → Keeps IsWellFormed (run cs s)
unfolding run
run-Keeps [] s w = w
run-Keeps (c ∷ cs) s w = after_call cs s (perform c s) w (perform-Keeps c s w) (run-Keeps cs)

-- Whatever calls of the methods that write are made on a store that New made, it is consistent as
-- long as no call has crashed.
pub run-new-IsWellFormed : (cs : List Call) → Keeps IsWellFormed (run cs new)
run-new-IsWellFormed cs = run-Keeps cs new new-IsWellFormed
