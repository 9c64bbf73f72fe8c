-- ===== src/Postgres/States.antt =====
-- internal/storage/postgres/jobs.go, retry.go and misc.go: transitions, heartbeats, orphans, results,
-- RemoveExpired.
use gfire.Prelude.{
  ℕ, String, Bool, false, not, ◌&&◌, Option, none, some, List, [], ◌∷◌, ◌==◌, if◌then◌else◌, eqb,
  ltb, take, length, ◌-◌,
}
use gfire.Prelude.Int.{ℤ, pos}
use gfire.Prelude.Text.{◌<>◌}
use gfire.Prelude.Dict.{is_some}
use gfire.Prelude.Result.{
  Result, ok, err, err_not_found, err_state_conflict, err_terminal_state, err_backend,
}
use gfire.Job.{
  JobState, JobTicket, Runtime, state_enqueued, state_processing, state_succeeded, state_failed,
  state_scheduled, state_deleted, state_dead, irreversible_states,
}
use gfire.Memory.Query.{sub_time}
use gfire.Postgres.{
  Row, Tables, Session, find_row, update, add_state, unschedule, add_schedule, bump_counter, exec,
  finish, transaction,
}
use gfire.Postgres.Jobs.{plain_state, among}

-- The check that Requeue and DeleteJob begin with. Its SELECT locks nothing, and every error of
-- it is taken for a missing row; other transactions may commit before what follows, which finds no
-- row to update if the job is gone then.
abbrev pub unless_final :
    Session → String → Tables → (Tables → Result (Unit {0} × Tables)) → Result (Unit {0}) × Tables
unless_final w id t next =
    if w.fails 0
    then (err err_backend, t)
    else if w.fails 1
    then (err err_not_found, t)
    else elim (find_row id t.jobs) [
      | none ↦ (err err_not_found, t)
      | some row ↦
          if irreversible_states row.state
          then (err err_terminal_state, t)
          else finish w (w.meanwhile t) (
              if is_some (find_row id (w.meanwhile t).jobs)
              then next (w.meanwhile t)
              else err err_not_found)
    ]

abbrev pub move_row : String → ℕ → Row → Row
move_row state now row = record row { state = state; progress_at = none; updated_at = now }

abbrev pub mark : Session → Runtime → String → String → String → Tables → Result (Unit {0} × Tables)
mark w rt id state reason t =
    exec w 2 (update id (move_row state (rt.clock 0))) t
      (λ t1. exec w 3 (add_state id (plain_state state reason (rt.clock 0))) t1 (λ t2. ok (tt, t2)))

-- Storage.Requeue
unfoldable pub requeue : Session → Runtime → String → String → Tables → Result (Unit {0}) × Tables
requeue w rt id reason t = unless_final w id t (mark w rt id state_enqueued reason)

-- Storage.DeleteJob
unfoldable pub delete_job : Session → Runtime → String → Tables → Result (Unit {0}) × Tables
delete_job w rt id t = unless_final w id t (mark w rt id state_deleted "")

-- The key of bumpCounterForState, or none.
abbrev pub counter_for : String → String
counter_for name =
    if name == state_succeeded
    then "succeeded"
    else if name == state_failed
    then "failed"
    else if name == state_dead
    then "dead"
    else ""

-- bumpCounterForState, at the end of a transaction
abbrev pub bump_for_state : Session → String → Tables → Result (Unit {0} × Tables)
bump_for_state w key t =
    if key == "" then ok (tt, t) else exec w 4 (bump_counter key (pos 1)) t (λ t'. ok (tt, t'))

abbrev pub stamped : Runtime → JobState → JobState
stamped rt st = record st { created_at = if eqb st.created_at 0 then rt.clock 0 else st.created_at }

abbrev pub apply_row : JobState → Row → Row
apply_row st row = record row {
  state = st.name;
  progress_at = if not (st.name == state_processing) then none else row.progress_at;
  updated_at = st.created_at;
}

-- A SELECT … FOR UPDATE of the state of a job, and what follows.
abbrev pub lock_row :
    Session → String → Tables → (Row → Result (Unit {0} × Tables)) → Result (Unit {0} × Tables)
lock_row w id t next =
    if w.fails 1
    then err err_backend
    else elim (find_row id t.jobs) [ none ↦ err err_not_found | some row ↦ next row ]

-- applyStateTx
abbrev pub apply_state_tx :
    Session → Runtime → String → String → JobState → Tables → Result (Unit {0} × Tables)
apply_state_tx w rt id expected st t =
    let st' : JobState = stamped rt st in
    lock_row w id t (λ row.
      if row.state == expected
      then exec w 2 (update id (apply_row st')) t
          (λ t1. exec w 3 (add_state id st') t1 (λ t2. bump_for_state w (counter_for st'.name) t2))
      else err err_state_conflict)

-- Storage.ApplyState
unfoldable pub apply_state :
    Session → Runtime → String → String → JobState → Tables → Result (Unit {0}) × Tables
apply_state w rt id expected st t = transaction w (apply_state_tx w rt id expected st) t

-- Storage.HeartbeatJob
unfoldable pub heartbeat_job : Session → Runtime → String → Tables → Result (Unit {0}) × Tables
heartbeat_job w rt id t =
    if w.fails 0
    then (err err_backend, t)
    else if is_some (find_row id t.jobs)
    then (
      ok tt,
      update id (λ row. record row { progress_at = some (rt.clock 0); updated_at = rt.clock 0 }) t,
    )
    else (err err_not_found, t)

abbrev pub is_before : ℕ → Option ℕ → Bool
is_before cutoff none = false
is_before cutoff (some at) = ltb at cutoff

abbrev pub orphan_ticket : String → JobTicket
orphan_ticket id = record { job_id = id; token = "orphan-" <> id }

abbrev pub orphans : ℕ → List Row → List JobTicket
orphans cutoff [] = []
orphans cutoff (row ∷ rows) =
    let rest = orphans cutoff rows in
    if row.state == state_processing && is_before cutoff row.progress_at
    then orphan_ticket row.id ∷ rest
    else rest

-- Storage.GetOrphanedJobs
unfoldable pub get_orphaned_jobs : Session → Runtime → ℤ → Tables → Result (List JobTicket)
get_orphaned_jobs w rt age t =
    if w.fails 0 then err err_backend else ok (orphans (sub_time (rt.clock 0) age) t.jobs)

abbrev pub scheduled_state : Runtime → ℕ → JobState
scheduled_state rt at = record {
  name = state_scheduled;
  reason = "";
  attrs = ("enqueue_at", rt.rfc3339 at) ∷ [];
  created_at = rt.clock 0;
}

abbrev pub set_state : String → ℕ → Row → Row
set_state state now row = record row { state = state; updated_at = now }

-- The transaction of ScheduleRetry.
abbrev pub schedule_retry_tx : Session → Runtime → String → ℕ → Tables → Result (Unit {0} × Tables)
schedule_retry_tx w rt id at t = lock_row w id t (λ row.
    if row.state == state_failed
    then exec w 2 (update id (set_state state_scheduled (rt.clock 0))) t (λ t1.
      exec w 3 (add_state id (scheduled_state rt at)) t1 (λ t2. exec w 4 (unschedule id) t2 (λ t3.
        exec w 5 (add_schedule id at) t3
          (λ t4. exec w 6 (bump_counter "scheduled" (pos 1)) t4 (λ t5. ok (tt, t5))))))
    else err err_state_conflict)

-- Storage.ScheduleRetry
unfoldable pub schedule_retry : Session → Runtime → String → ℕ → Tables → Result (Unit {0}) × Tables
schedule_retry w rt id at t = transaction w (schedule_retry_tx w rt id at) t

-- Storage.SetJobResult; `now` is the server's clock.
unfoldable pub set_job_result : Session → ℕ → String → List ℕ → Tables → Result (Unit {0}) × Tables
set_job_result w now id result t =
    if w.fails 0 then (err err_backend, t) else elim (w.json (take 65536 result)) [
      | none ↦ (err err_backend, t)
      | some value ↦
          if is_some (find_row id t.jobs)
          then (ok tt, update id (λ row. record row { result = value; updated_at = now }) t)
          else (err err_not_found, t)
    ]

abbrev pub is_expired : ℕ → Row → Bool
is_expired cutoff row =
    among row.state (state_succeeded ∷ state_failed ∷ state_deleted ∷ [])
    && ltb row.updated_at cutoff

abbrev pub keep_rows : ℕ → List Row → List Row
keep_rows cutoff [] = []
keep_rows cutoff (row ∷ rows) =
    let rest = keep_rows cutoff rows in if is_expired cutoff row then rest else row ∷ rest

-- ON DELETE CASCADE
abbrev pub cascade {ℓ} : {A : Type ℓ} → List Row → List (String × A) → List (String × A)
cascade rows [] = []
cascade rows ((id, a) ∷ others) =
    let rest = cascade rows others in if is_some (find_row id rows) then (id, a) ∷ rest else rest

-- Storage.RemoveExpired
unfoldable pub remove_expired : Session → ℕ → Tables → Result ℕ × Tables
remove_expired w cutoff t =
    if w.fails 0
    then (err err_backend, t)
    else let rows = keep_rows cutoff t.jobs in
      (
        ok (length t.jobs - length rows),
        record t {
          jobs = rows;
          states = cascade rows t.states;
          scheduled = cascade rows t.scheduled;
          continuations = cascade rows t.continuations;
        },
      )
