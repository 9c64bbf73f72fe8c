-- ===== src/Memory/Tests.antt =====
-- Environments, a job and stores for the tests of internal/storage/memory/memory.go.
pub mod Serving
pub mod Changing
use gfire.Prelude.{
  ℕ, ◌+◌, ◌≡◌, ◌≢◌, ◌≤◌, ◌<◌, ◌↔◌, ◌⊎◌, refl, String, Bool, true, false, Option, none, some, List,
  [], ◌∷◌, ◌++◌, ◌==◌, last?, if◌then◌else◌, In, All, inl, inr, length, max, arith, ◌&&◌, not,
}
use gfire.Prelude.Int.{ℤ, pos, negsuc}
use gfire.Prelude.Text.{◌<>◌}
use gfire.Prelude.Dict.{insert, empty, distinct}
use gfire.Prelude.Result.{
  Result, ok, err, fault, err_state_conflict, err_terminal_state, err_lock_not_held,
}
use gfire.Job.{
  Job, JobState, JobTicket, Runtime, state_enqueued, state_processing, state_succeeded,
  state_failed, state_dead, state_cancelled, state_deleted, terminal_states,
}
use gfire.Memory.{Store, MemoryLock, new, read_list}
use gfire.Memory.Queues.{
  enqueue, insert_job, prepare, dequeue_pass, requeue, enqueue_idempotent, ticket, processing_state,
}
use gfire.Memory.States.{apply_state, stamped, delete_job, mark_deleted, deleted_state}
use gfire.Memory.Query.{sub_time, get_orphaned_jobs}
use gfire.Memory.Scheduled.{get_due_scheduled, due_ticket, promoted_state, add_scheduled}
use gfire.Memory.Locks.{acquire_lock, release, fresh_lock}
use gfire.Memory.Maintenance.{remove_expired}
use gfire.Memory.WellFormed.{IsWellFormed}
use gfire.Memory.Calls.{Call, perform, run, Keeps, Safe}
use gfire.Memory.Calls.Safety.{perform-Safe, run-new-IsWellFormed, is_dequeue}
use gfire.Memory.Calls.Live.{run-new-IsSound, IsSound, is_removal}
use gfire.Memory.Calls.Append.{perform-Grows, Grows, restarts}
use gfire.Memory.Dispatch.{dequeue_pass_serves_front, dequeue_pass_crashes, handed_out, AllEmpty}
use gfire.Memory.Expiry.{
  remove_expired_then_dequeue, remove_expired_lem, remove_expired_keeps_dead, expires,
}
use gfire.Memory.Transitions.{delete_job_final, deleted_job_returns}
use gfire.Memory.Due.{get_due_scheduled-length, get_due_scheduled_promotes, IsPromoted}
use gfire.Memory.Orphans.{
  get_orphaned_jobs_lem, orphans_after_transition, orphan_requeued_again, orphan_ticket,
}
use gfire.Memory.Idempotency.{enqueue_idempotent_twice, enqueue_idempotent_creates, IsUnused}
use gfire.Memory.Exclusion.{acquire_lock_excludes, acquire_lock-release, release_after_expiry}

abbrev pub runtime_at : ℕ → String → Runtime
runtime_at t id = record {
  clock = λ i. t + i;
  uuid = λ i. id;
  rfc3339 = λ u. "2026-01-01T00:00:00Z";
}

abbrev pub morning : Runtime
morning = runtime_at 100 "job-1"

abbrev pub noon : Runtime
noon = runtime_at 900 "job-2"

abbrev pub email : Job
email = record {
  id = "a";
  name = "email";
  args = 123 ∷ 125 ∷ [];
  queue = "mail";
  retry_max = pos 3;
  timeout = pos 0;
  idempotency_key = "k";
  created_at = 100;
  result = [];
}

abbrev pub state_at : String → ℕ → JobState
state_at name t = record { name = name; reason = ""; attrs = []; created_at = t }

-- The job `email` in its queue, with a history that ends in the given state.
abbrev pub stored : String → Store
stored name = record new {
  jobs = insert "a" email empty;
  job_states = insert "a" (state_at state_enqueued 50 ∷ state_at name 60 ∷ []) empty;
  queues = insert "mail" ("a" ∷ []) empty;
  progress = insert "a" 60 empty;
}

-- The queue names a job that the store has lost.
abbrev pub dangling : Store
dangling = record new { queues = insert "mail" ("a" ∷ "b" ∷ []) empty }

-- The job is scheduled for 400.
abbrev pub planned : Store
planned = record (stored state_failed) { scheduled = insert "a" 400 empty }

-- The store after one AddScheduled.
abbrev pub one_planned : Store
one_planned = (add_scheduled morning 400 email new).1

pub one_planned-IsWellFormed : IsWellFormed one_planned
unfolding run perform
one_planned-IsWellFormed = run-new-IsWellFormed (Call.add_scheduled morning 400 email ∷ [])
