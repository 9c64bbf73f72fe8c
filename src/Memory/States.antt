-- ===== src/Memory/States.antt =====
-- The section "State Machine" of memory.go: transitions, retries, results, heartbeats and DeleteJob.
use gfire.Prelude.{
  ℕ, String, not, ◌&&◌, Option, none, some, List, [], ◌∷◌, ◌++◌, ◌==◌, if◌then◌else◌, take, last?,
  eqb,
}
use gfire.Prelude.Int.{ℤ, pos}
use gfire.Prelude.Dict.{Dict, insert, erase}
use gfire.Prelude.Result.{
  Result, ok, err, fault, err_not_found, err_state_conflict, err_terminal_state,
}
use gfire.Job.{
  JobState, Runtime, state_enqueued, state_processing, state_succeeded, state_failed, state_dead,
  state_scheduled, state_deleted, irreversible_states,
}
use gfire.Memory.{Store, add_count}

-- `current := Enqueued; if len(states) > 0 { ... }`
abbrev pub current_or_enqueued : Option JobState → String
current_or_enqueued none = state_enqueued
current_or_enqueued (some st) = st.name

-- The counter that a new state raises.
abbrev pub count_state : String → Dict ℤ → Dict ℤ
count_state name m =
    if name == state_succeeded
    then add_count "succeeded" (pos 1) m
    else if name == state_failed
    then add_count "failed" (pos 1) m
    else if name == state_dead
    then add_count "dead" (pos 1) m
    else m

abbrev pub stamped : Runtime → JobState → JobState
stamped rt st = record st { created_at = if eqb st.created_at 0 then rt.clock 0 else st.created_at }

abbrev pub record_state : Runtime → String → String → JobState → List JobState → Store → Store
record_state rt id expected st states s = record s {
  job_states = insert id (states ++ stamped rt st ∷ []) s.job_states;
  processing =
      if expected == state_processing && not (st.name == state_processing)
      then erase id s.processing
      else s.processing;
  counters = count_state st.name s.counters;
}

-- Storage.ApplyState
unfoldable pub apply_state : Runtime → String → String → JobState → Store → Result Store
apply_state rt id expected st s = elim (s.job_states id) [
  | none ↦ err err_not_found
  | some states ↦
      if current_or_enqueued (last? states) == expected
      then ok (record_state rt id expected st states s)
      else err err_state_conflict
]

abbrev pub scheduled_state : Runtime → ℕ → ℕ → JobState
scheduled_state rt at t = record {
  name = state_scheduled;
  reason = "";
  attrs = ("enqueue_at", rt.rfc3339 at) ∷ [];
  created_at = t;
}

abbrev pub add_retry : Runtime → String → ℕ → List JobState → Store → Store
add_retry rt id at states s = record s {
  job_states = insert id (states ++ scheduled_state rt at (rt.clock 0) ∷ []) s.job_states;
  scheduled = insert id at s.scheduled;
  counters = add_count "scheduled" (pos 1) s.counters;
}

-- Storage.ScheduleRetry; the index of the last state is out of range for an empty history.
unfoldable pub schedule_retry : Runtime → String → ℕ → Store → Result Store
schedule_retry rt id at s = elim (s.job_states id) [
  | none ↦ err err_not_found
  | some states ↦ elim (last? states) [
    | none ↦ fault
    | some st ↦
        if st.name == state_failed then ok (add_retry rt id at states s) else err err_state_conflict
  ]
]

abbrev pub max_result : ℕ
max_result = 65536

-- Storage.SetJobResult
unfoldable pub set_job_result : String → List ℕ → Store → Result Store
set_job_result id result s = elim (s.jobs id) [
  | none ↦ err err_not_found
  | some job ↦
      ok (record s { jobs = insert id (record job { result = take max_result result }) s.jobs })
]

-- Storage.HeartbeatJob
unfoldable pub heartbeat_job : Runtime → String → Store → Result Store
heartbeat_job rt id s = elim (s.jobs id) [
  | none ↦ err err_not_found
  | some job ↦ ok (record s { progress = insert id (rt.clock 0) s.progress })
]

abbrev pub deleted_state : ℕ → JobState
deleted_state t = record { name = state_deleted; reason = ""; attrs = []; created_at = t }

abbrev pub mark_deleted : Runtime → String → List JobState → Store → Store
mark_deleted rt id states s = record s {
  job_states = insert id (states ++ deleted_state (rt.clock 0) ∷ []) s.job_states;
  processing = erase id s.processing;
  progress = erase id s.progress;
}

-- Storage.DeleteJob
unfoldable pub delete_job : Runtime → String → Store → Result Store
delete_job rt id s = elim (s.job_states id) [
  | none ↦ err err_not_found
  | some states ↦ elim (last? states) [
    | none ↦ fault
    | some st ↦
        if irreversible_states st.name
        then err err_terminal_state
        else ok (mark_deleted rt id states s)
  ]
]
