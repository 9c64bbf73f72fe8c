-- ===== src/Engine/Tests.antt =====
-- Runs of jobs, settings and limits of internal/engine at concrete arguments.
pub mod Loops
use gfire.Prelude.{
  ℕ, ◌+◌, ◌-◌, ◌*◌, ◌^◌, ◌≡◌, ◌≢◌, ◌≤◌, ◌<◌, refl, Bool, true, false, Option, none, some, List, [],
  ◌∷◌, ◌++◌, ◌==◌, if◌then◌else◌, In, inl, inr, ◌||◌, arith, min,
}
use gfire.Prelude.Int.{ℤ, pos, negsuc, ◌≤ℤ◌, leb_ℤ}
use gfire.Prelude.Dict.{insert, empty}
use gfire.Prelude.Result.{Result, ok, err, fault}
use gfire.Job.{
  Job, JobState, JobTicket, JobWithStates, ContinuationEntry, RecurringJobEntry, ServerInfo,
  Runtime, state_enqueued, state_processing, state_succeeded, state_failed, state_cancelled,
  condition_on_succeeded, server_status_active,
}
use gfire.Memory.{Store, new, read_list}
use gfire.Memory.Queues.{prepare}
use gfire.Memory.Query.{add_time, get_job}
use gfire.Memory.Locks.{is_held}
use gfire.Memory.States.{stamped, scheduled_state}
use gfire.Memory.Tests.{runtime_at, morning, noon, email, state_at, stored}
use gfire.Middleware.{
  Outcome, returned, failed, panicked, HandlerFunc, MiddlewareFunc, IsPanic, execute,
  panic_recovery, execute-IsPanic, execute_transparent,
}
use gfire.Engine.Retry.{
  retry_delay, effective_retry_max, retry_delay_bounds, retry_delay_overflows, minute, hour, second,
}
use gfire.Engine.Config.{
  Config, default_config, normalize, IsUsable, normalize-IsUsable, normalize_fixed,
}
use gfire.Engine.Limits.{
  active_in, inc_active, dec_active, queues_under_limit, has_room, backoff_after, millisecond,
  dec_active-inc_active, queues_under_limit_lem, backoff_after_lem,
}
use gfire.Engine.Storage.{Storage, memory}
use gfire.Engine.Finalize.{ExecError, plain, failed_with, finalize_failure}
use gfire.Engine.Finalize.Outcomes.{
  finalize_failure_cancelled, finalize_failure_dead, finalize_failure_retried, failed_state,
}
use gfire.Engine.Worker.{Json, InFlight, RunWorld, RunResult, success, process_ticket}
use gfire.Engine.Worker.Bookkeeping.{process_ticket-IsReleased, IsReleased}
use gfire.Engine.Coordinator.{stale_server_sweep, is_dead}
use gfire.Engine.Coordinator.Sweep.{IsKeyed}
use gfire.Engine.Recurring.{Cron, Manager, Tick, fire, reload, recurring_job}
use gfire.Engine.Recurring.Firing.{fire_excluded, fire_unlocks, resource_of}

abbrev refused : ExecError
refused = record { text = "refused"; is_canceled = false; is_deadline_exceeded = false }

abbrev cancelled : ExecError
cancelled = record { text = "context canceled"; is_canceled = true; is_deadline_exceeded = false }

abbrev later : ℕ → Runtime
later i = runtime_at (900 + 10 * i) "child"

abbrev running : Store
running = stored state_processing

finalize_failure_retried_example :
    let at = add_time 950 (retry_delay (pos 0) 7) in
    (t : Store) × (finalize_failure memory later 950 7 email 0 refused running ≡ (ok "", t))
    × (read_list "a" t.job_states
        ≡ (read_list "a" running.job_states ++ failed_state later refused 0 ∷ [])
          ++ scheduled_state (later 1) at ((later 1).clock 0) ∷ [])
    × (t.scheduled "a" ≡ some at)
unfolding effective_retry_max
finalize_failure_retried_example =
    finalize_failure_retried memory later 950 7 0 email refused running
      (state_at state_processing 60) refl refl refl refl

retry_delay_bounds_example :
    (pos minute ≤ℤ retry_delay (pos 3) 7) × (retry_delay (pos 3) 7 ≤ℤ pos (hour + second))
retry_delay_bounds_example = retry_delay_bounds 3 7 (omega arith) (omega arith) (omega arith)

retry_delay_overflows_example : retry_delay (pos 28) 7 ≤ℤ negsuc 0
retry_delay_overflows_example = retry_delay_overflows 28 7 (inl refl) (omega arith)

-- Texts as values, and objects that are never parsed.
abbrev plain_json : Json
plain_json = record {
  Value = List ℕ;
  unmarshal = λ bytes. some bytes;
  unmarshal_object = λ bytes. none;
  marshal_object = λ fields. some (123 ∷ 125 ∷ []);
}

abbrev quick_run : RunWorld Store
quick_run = record {
  meanwhile = λ job attempt s. s;
  outcome = λ job attempt s. success (91 ∷ 93 ∷ []);
  runtimes = later;
  now = 950;
  jitter = 7;
  child_runtimes = later;
}

abbrev idle : InFlight
idle = record { active = empty; cancels = empty }

process_ticket-IsReleased_example :
    IsReleased
      (get_job "a" running)
      idle
      (process_ticket memory plain_json quick_run
        (record { job_id = "a"; token = "t" })
        running
        idle).1
process_ticket-IsReleased_example =
    process_ticket-IsReleased memory plain_json quick_run (record { job_id = "a"; token = "t" })
      running idle

abbrev report : ContinuationEntry
report = record {
  child_name = "report";
  child_args = [];
  child_queue = "";
  condition = condition_on_succeeded;
  created_at = 80;
}

abbrev parent_done : Store
parent_done = record (stored state_succeeded) { continuations = insert "a" (report ∷ []) empty }

abbrev parent_job : JobWithStates
parent_job = record { job = email; states = read_list "a" parent_done.job_states }
