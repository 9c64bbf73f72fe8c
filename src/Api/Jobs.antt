-- ===== src/Api/Jobs.antt =====
-- The handlers of internal/api/handlers_jobs.go for a single job, over the in-memory store.
use gfire.Prelude.{ℕ, String, Option, none, some, List, ◌==◌, eqb, if◌then◌else◌}
use gfire.Prelude.Int.{ℤ, pos, leb_ℤ}
use gfire.Prelude.Result.{Result, ok, err, fault}
use gfire.Job.{ContinuationEntry, Runtime, condition_on_succeeded}
use gfire.Memory.{Store}
use gfire.Memory.Queues
use gfire.Memory.States
use gfire.Memory.Query
use gfire.Memory.Scheduled.{add_scheduled}
use gfire.Memory.Recurring.{add_continuation}
use gfire.Api.{
  Decoded, decoded, malformed, EnqueueRequest, ScheduleRequest, ContinueRequest, Body, Reply,
  bad_request, args_or_empty, requested_job, timeout_of, put_job,
}

abbrev pub created_reply : String → String × Store → Reply × Store
created_reply queue (id, t) = (record { code = 201; body = Body.enqueued id queue }, t)

abbrev pub enqueue_timed : Runtime → String → EnqueueRequest → Option ℤ → Store → Reply × Store
enqueue_timed rt key req none s = (bad_request "invalid timeout", s)
enqueue_timed rt key req (some timeout) s =
    let job = requested_job req timeout key in created_reply job.queue (put_job rt job s)

-- handleEnqueue; `key` is the header Idempotency-Key.
unfoldable pub handle_enqueue :
    (String → Option ℤ) → Runtime → String → Decoded EnqueueRequest → Store → Reply × Store
handle_enqueue parse_duration rt key (malformed why) s = (bad_request why, s)
handle_enqueue parse_duration rt key (decoded req) s =
    if req.name == ""
    then (bad_request "name is required", s)
    else enqueue_timed rt key req (timeout_of parse_duration req.timeout) s

abbrev pub scheduled_reply : ℕ → String × Store → Reply × Store
scheduled_reply at (id, t) = (record { code = 201; body = Body.scheduled id at }, t)

-- handleSchedule; IsZero holds of 0.
unfoldable pub handle_schedule : Runtime → Decoded ScheduleRequest → Store → Reply × Store
handle_schedule rt (malformed why) s = (bad_request why, s)
handle_schedule rt (decoded req) s =
    if req.request.name == ""
    then (bad_request "name is required", s)
    else if eqb req.enqueue_at 0
    then (bad_request "enqueue_at is required", s)
    else scheduled_reply req.enqueue_at
        (add_scheduled rt req.enqueue_at (requested_job req.request (pos 0) "") s)

-- handleGetJob
unfoldable pub handle_get_job : String → Store → Reply
handle_get_job id s = elim (Query.get_job id s) [
  | ok jw ↦ record { code = 200; body = Body.job jw }
  | err e ↦ record { code = 404; body = Body.error "job not found" }
  | fault ↦ record { code = 404; body = Body.error "job not found" }
]

-- queryInt; `scan` is fmt.Sscanf with "%d".
abbrev pub positive_or_default : Option ℤ → ℤ → ℤ
positive_or_default none default = default
positive_or_default (some n) default = if leb_ℤ n (pos 0) then default else n

unfoldable pub query_int : (String → Option ℤ) → String → ℤ → ℤ
query_int scan text default =
    if text == "" then default else positive_or_default (scan text) default

-- An error of the store answers with a code; what it did not do to the store it did not do.
abbrev pub answer : ℕ → String → Result Store → Store → Result (Reply × Store)
answer code done (ok t) s = ok (record { code = 200; body = Body.status done }, t)
answer code done (err e) s = ok (record { code = code; body = Body.store_error e }, s)
answer code done fault s = fault

-- handleListJobs
unfoldable pub handle_list_jobs :
    (String → Option ℤ) → List String → String → String → String → Store → Result Reply
unfolding query_int
handle_list_jobs scan order state limit offset s =
    elim (Query.get_jobs_by_state order state (query_int scan offset (pos 0))
      (query_int scan limit (pos 50)) s) [
        | ok jws ↦ ok (record { code = 200; body = Body.jobs jws })
        | err e ↦ ok (record { code = 500; body = Body.store_error e })
        | fault ↦ fault
      ]

-- handleRequeue
unfoldable pub handle_requeue : Runtime → String → Store → Result (Reply × Store)
handle_requeue rt id s = answer 409 "enqueued" (Queues.requeue rt id "manual requeue" s) s

-- handleDelete
unfoldable pub handle_delete : Runtime → String → Store → Result (Reply × Store)
handle_delete rt id s = answer 409 "deleted" (States.delete_job rt id s) s

abbrev pub continuation : ContinueRequest → ℕ → ContinuationEntry
continuation req now = record {
  child_name = req.child_name;
  child_args = args_or_empty req.child_args;
  child_queue = req.child_queue;
  condition = if req.condition == "" then condition_on_succeeded else req.condition;
  created_at = now;
}

-- handleContinue; the in-memory store returns no error.
unfoldable pub handle_continue :
    Runtime → ℕ → String → Decoded ContinueRequest → Store → Reply × Store
handle_continue rt now parent (malformed why) s = (bad_request why, s)
handle_continue rt now parent (decoded req) s =
    if req.child_name == "" then (bad_request "child_name is required", s) else (
      record { code = 201; body = Body.status "registered" },
      add_continuation rt parent (continuation req now) s,
    )
