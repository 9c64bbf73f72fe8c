-- ===== src/Api/Recurring.antt =====
-- The handlers of internal/api/handlers_recurring.go that write, over the in-memory store.
use gfire.Prelude.{
  ℕ, String, Bool, true, ◌||◌, Option, none, some, List, [], ◌∷◌, ◌==◌, if◌then◌else◌,
}
use gfire.Job.{RecurringJobEntry, Runtime}
use gfire.Memory.{Store}
use gfire.Memory.Queues.{enqueue}
use gfire.Memory.Query.{get_recurring_jobs}
use gfire.Memory.Recurring.{upsert_recurring, remove_recurring, update_recurring_last_run}
use gfire.Engine.Worker.{queue_or_default}
use gfire.Engine.Recurring.{recurring_job, or_time, or_unchanged}
use gfire.Api.{
  Decoded, decoded, malformed, RecurringRequest, Body, Reply, bad_request, args_or_empty,
}

abbrev enabled_or_true : Option Bool → Bool
enabled_or_true none = true
enabled_or_true (some b) = b

-- The definition that a request asks for; the next run is left out when the parser gives none.
abbrev pub requested_entry : (String → ℕ → Option ℕ) → ℕ → RecurringRequest → RecurringJobEntry
requested_entry next_recurring_run now req = record {
  id = req.id;
  job_name = req.job_name;
  args = args_or_empty req.args;
  queue = queue_or_default req.queue;
  cron_expr = req.cron_expr;
  last_run = none;
  next_run = next_recurring_run req.cron_expr now;
  enabled = enabled_or_true req.enabled;
  created_at = now;
  updated_at = now;
}

abbrev recurring_created : RecurringJobEntry → Reply
recurring_created e = record {
  code = 201;
  body = Body.recurring e.id e.job_name e.cron_expr e.enabled;
}

-- handleCreateRecurring; `parse` is ParseRecurringCron's error, whose text the cron package gives.
unfoldable pub handle_create_recurring :
    (String → Option String)
    → (String → ℕ → Option ℕ)
    → Runtime
    → ℕ
    → Decoded RecurringRequest
    → Store
    → Reply × Store
handle_create_recurring parse next_recurring_run rt now (malformed why) s = (bad_request why, s)
handle_create_recurring parse next_recurring_run rt now (decoded req) s =
    if req.id == "" || req.job_name == "" || req.cron_expr == ""
    then (bad_request "id, job_name, and cron_expr are required", s)
    else elim (parse req.cron_expr) [
      | some message ↦ (bad_request message, s)
      | none ↦
          let entry = requested_entry next_recurring_run now req in
          (recurring_created entry, upsert_recurring rt entry s)
    ]

-- handleDeleteRecurring; the in-memory store returns no error.
unfoldable pub handle_delete_recurring : String → Store → Reply × Store
handle_delete_recurring id s =
    if id == ""
    then (bad_request "id is required", s)
    else (record { code = 200; body = Body.status "removed" }, remove_recurring id s)

-- The first definition with an id.
unfoldable pub find_entry : String → List RecurringJobEntry → Option RecurringJobEntry
find_entry id [] = none
find_entry id (e ∷ entries) = if e.id == id then some e else find_entry id entries

-- handleTriggerRecurring for a definition that is there; an error of the update is dropped.
abbrev pub trigger_entry :
    (String → ℕ → Option ℕ) → (ℕ → Runtime) → ℕ → String → RecurringJobEntry → Store → Reply × Store
trigger_entry next_recurring_run rts now id entry s =
    let (job_id, t) = enqueue (rts 0) (queue_or_default entry.queue) (recurring_job entry) s in
    (
      record { code = 201; body = Body.triggered id job_id },
      or_unchanged
          (update_recurring_last_run (rts 1) id now
            (or_time (next_recurring_run entry.cron_expr now) now) t)
          t,
    )

-- handleTriggerRecurring; `order` is the visit of GetRecurringJobs.
unfoldable pub handle_trigger_recurring :
    (String → ℕ → Option ℕ) → (ℕ → Runtime) → List String → ℕ → String → Store → Reply × Store
unfolding find_entry
handle_trigger_recurring next_recurring_run rts order now id s =
    if id == ""
    then (bad_request "id is required", s)
    else elim (find_entry id (get_recurring_jobs order s)) [
      | none ↦ (record { code = 404; body = Body.error "recurring job not found" }, s)
      | some entry ↦ trigger_entry next_recurring_run rts now id entry s
    ]
