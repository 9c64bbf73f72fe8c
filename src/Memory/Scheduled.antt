-- ===== src/Memory/Scheduled.antt =====
-- The section "Scheduled Jobs" of memory.go.
use gfire.Prelude.{
  ℕ, suc, String, Bool, true, false, Option, none, some, List, [], ◌∷◌, ◌++◌, ◌==◌, leb,
  if◌then◌else◌, length,
}
use gfire.Prelude.Int.{ℤ, pos, negsuc, leb_ℤ}
use gfire.Prelude.Text.{◌<>◌}
use gfire.Prelude.Dict.{Dict, insert, erase}
use gfire.Prelude.Result.{Result, ok, fault, ◌>>=◌}
use gfire.Job.{Job, JobState, JobTicket, Runtime, state_enqueued}
use gfire.Memory.{Store, add_count, push_state, push_back}
use gfire.Memory.States.{scheduled_state}

-- Storage.AddScheduled
unfoldable pub add_scheduled : Runtime → ℕ → Job → Store → String × Store
add_scheduled rt at job s = (
  job'.id,
  record s {
    jobs = insert job'.id job' s.jobs;
    job_states = insert job'.id (scheduled_state rt at (rt.clock 1) ∷ []) s.job_states;
    scheduled = insert job'.id at s.scheduled;
    counters = add_count "scheduled" (pos 1) s.counters;
  },
)
  where
    job' : Job
    job' = record job {
      id = if job.id == "" then rt.uuid 0 else job.id;
      created_at = rt.clock 0;
      queue = if job.queue == "" then "default" else job.queue;
    }

-- !enqueueAt.After(now)
abbrev pub is_due : Option ℕ → ℕ → Bool
is_due none now = false
is_due (some at) now = leb at now

-- The first loop of GetDueScheduled: at most one entry more than `batch_size` allows, and only then
-- is the size looked at.
unfoldable pub collect_due : ℕ → ℤ → List String → Dict ℕ → List String → List String
collect_due now batch_size [] scheduled due = due
collect_due now batch_size (id ∷ order) scheduled due =
    let due' = if is_due (scheduled id) now then due ++ id ∷ [] else due in
    let rest = collect_due now batch_size order scheduled due' in
    if leb_ℤ batch_size (pos (length due')) then due' else rest

abbrev pub promoted_state : ℕ → JobState
promoted_state t = record {
  name = state_enqueued;
  reason = "scheduled";
  attrs = [];
  created_at = t;
}

-- The body of the second loop, for a job that is there.
abbrev pub promote : ℕ → String → Job → Store → Store
promote t id job s = record s {
  scheduled = erase id s.scheduled;
  job_states = push_state id (promoted_state t) s.job_states;
  queues = push_back job.queue id s.queues;
  counters = add_count "enqueued" (pos 1) (add_count "scheduled" (negsuc 0) s.counters);
}

-- The second loop; `i` counts the readings of the clock. `s.jobs[jobID]` is nil for a missing job,
-- and its queue a nil dereference.
unfoldable pub promote_all : Runtime → ℕ → List String → Store → Result Store
promote_all rt i [] s = ok s
promote_all rt i (id ∷ due) s = elim (s.jobs id) [
  | none ↦ fault
  | some job ↦ promote_all rt (suc i) due (promote (rt.clock i) id job s)
]

abbrev pub due_ticket : String → JobTicket
due_ticket id = record { job_id = id; token = "sched-" <> id }

abbrev pub tickets : List String → List JobTicket
tickets [] = []
tickets (id ∷ due) = due_ticket id ∷ tickets due

abbrev pub notify : List String → Store → Store
notify [] s = s
notify (id ∷ due) s = record s { dequeue_ch = true }

-- Storage.GetDueScheduled
unfoldable pub get_due_scheduled :
    Runtime → List String → ℕ → ℤ → Store → Result (List JobTicket × Store)
unfolding collect_due promote_all
get_due_scheduled rt order now batch_size s =
    let due = collect_due now batch_size order s.scheduled [] in
    promote_all rt 0 due s >>= λ s'. ok (tickets due, notify due s')

-- Storage.RemoveScheduled
unfoldable pub remove_scheduled : String → Store → Store
remove_scheduled id s = record s { scheduled = erase id s.scheduled }
