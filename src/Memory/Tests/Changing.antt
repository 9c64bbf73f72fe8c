-- ===== src/Memory/Tests/Changing.antt =====
-- Transitions, the schedule, orphans, idempotency keys and locks of the in-memory store, at concrete stores.
use gfire.Prelude.{
  ℕ, ◌≡◌, ◌≢◌, ◌<◌, ◌↔◌, refl, String, false, none, some, List, [], ◌∷◌, ◌++◌, last?, In, inl,
  arith,
}
use gfire.Prelude.Int.{pos}
use gfire.Prelude.Text.{◌<>◌}
use gfire.Prelude.Dict.{insert, empty, distinct}
use gfire.Prelude.Result.{ok, err, err_lock_not_held}
use gfire.Job.{
  Job, JobTicket, state_enqueued, state_processing, state_succeeded, state_failed,
  irreversible_states,
}
use gfire.Memory.{Store, MemoryLock, new, read_list}
use gfire.Memory.Queues.{requeue, put_back, enqueue_idempotent}
use gfire.Memory.States.{record_state, delete_job, mark_deleted, deleted_state}
use gfire.Memory.Query.{sub_time, get_orphaned_jobs}
use gfire.Memory.Scheduled.{get_due_scheduled, due_ticket, promoted_state, add_scheduled}
use gfire.Memory.Locks.{acquire_lock, fresh_lock}
use gfire.Memory.Transitions.{apply_state_lem, Compared, deleted_job_returns}
use gfire.Memory.Due.{get_due_scheduled_promotes, IsPromoted}
use gfire.Memory.Orphans.{get_orphaned_jobs_lem, orphan_requeued_again, orphan_ticket}
use gfire.Memory.Idempotency.{enqueue_idempotent_twice}
use gfire.Memory.Exclusion.{acquire_lock_excludes}
use gfire.Memory.Tests.{
  runtime_at, morning, noon, email, state_at, stored, planned, one_planned,
  one_planned-IsWellFormed,
}

apply_state_lem_example :
    Compared noon noon "a" state_processing
      (state_at state_succeeded 0)
      (state_at state_failed 0)
      (stored state_processing)
apply_state_lem_example =
    apply_state_lem noon noon "a" state_processing (state_at state_succeeded 0)
      (state_at state_failed 0) (stored state_processing)

-- The store after a worker has ended the job.
abbrev succeeded : Store
succeeded =
    record_state noon "a" state_processing (state_at state_succeeded 0)
      (state_at state_enqueued 50 ∷ state_at state_processing 60 ∷ []) (stored state_processing)

-- The store after DeleteJob.
abbrev deleted : Store → Store
deleted s = mark_deleted noon "a" (read_list "a" s.job_states) s

deleted_job_returns_example :
    (u : Store) × (get_due_scheduled noon ("a" ∷ []) 500 (pos 10) (deleted planned)
      ≡ ok (record { job_id = "a"; token = "sched-" <> "a" } ∷ [], u))
    × (last? (read_list "a" (deleted planned).job_states) ≡ some (deleted_state 900))
    × (last? (read_list "a" u.job_states) ≡ some (promoted_state 900))
    × (read_list "mail" u.queues ≡ "a" ∷ "a" ∷ [])
unfolding delete_job irreversible_states
deleted_job_returns_example =
    deleted_job_returns noon noon "a" 400 500 10 email planned (deleted planned) refl refl
      (omega arith) refl

get_due_scheduled_promotes_example :
    (ts : List JobTicket) × (t : Store) × (get_due_scheduled noon
        ("a" ∷ [])
        500
        (pos 10)
        one_planned
      ≡ ok (ts, t))
    × In (due_ticket "a") ts
    × IsPromoted "a" t
unfolding add_scheduled
get_due_scheduled_promotes_example =
    get_due_scheduled_promotes noon ("a" ∷ []) 500 10 400 "a" one_planned one_planned-IsWellFormed
      (omega arith) (inl refl) refl (omega arith)

get_orphaned_jobs_lem_example :
    In (orphan_ticket "a") (get_orphaned_jobs noon ("a" ∷ []) (pos 300) (stored state_succeeded))
    ↔ ((t : ℕ) × (some 60 ≡ some t) × (t < sub_time 900 (pos 300)))
get_orphaned_jobs_lem_example =
    get_orphaned_jobs_lem noon ("a" ∷ []) (pos 300) "a" (stored state_succeeded) (inl refl)

abbrev requeued : Store
requeued = put_back noon "a" "orphan recovery" email (stored state_processing)

orphan_requeued_again_example :
    (get_orphaned_jobs noon ("a" ∷ []) (pos 300) requeued
      ≡ get_orphaned_jobs noon ("a" ∷ []) (pos 300) (stored state_processing))
    × (job : Job) × (u : Store) × (some email ≡ some job)
    × (requeue noon "a" "orphan recovery" requeued ≡ ok u)
    × (read_list job.queue u.queues
        ≡ (read_list job.queue (stored state_processing).queues ++ job.id ∷ []) ++ job.id ∷ [])
unfolding requeue irreversible_states
orphan_requeued_again_example =
    orphan_requeued_again noon noon noon ("a" ∷ []) (pos 300) "a" "orphan recovery"
      (stored state_processing) requeued refl

enqueue_idempotent_twice_example :
    let (id, created, t) = enqueue_idempotent morning "mail" email new in
    enqueue_idempotent noon "other" email t ≡ (id, false, t)
enqueue_idempotent_twice_example =
    enqueue_idempotent_twice morning noon "mail" "other" email email new (distinct "k" "" refl) refl

abbrev first_lock : MemoryLock
first_lock = fresh_lock morning "r" (pos 300)

abbrev locked : Store
locked = record new { locks = insert "r" first_lock empty }

acquire_lock_excludes_example :
    (acquire_lock (runtime_at 200 "b") "r" (pos 300) locked ≡ err err_lock_not_held)
    × ((r' : String) → "r" ≢ r' → locked.locks r' ≡ none)
unfolding acquire_lock
acquire_lock_excludes_example =
    acquire_lock_excludes morning (runtime_at 200 "b") "r" (pos 300) (pos 300) new locked first_lock
      refl (omega arith)

abbrev second_lock : MemoryLock
second_lock = fresh_lock noon "r" (pos 300)
