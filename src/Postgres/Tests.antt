-- ===== src/Postgres/Tests.antt =====
-- Tables, and the store of internal/storage/postgres on them.
use gfire.Prelude.{
  some, ◌≡◌, ◌≢◌, refl, String, Bool, false, none, List, [], ◌∷◌, ◌==◌, Bool-cases, inl, inr, arith,
}
use gfire.Prelude.Int.{pos}
use gfire.Prelude.Dict.{distinct, empty, insert}
use gfire.Prelude.Result.{ok}
use gfire.Job.{
  Job, irreversible_states, state_scheduled, JobState, state_enqueued, state_processing,
  state_failed,
}
use gfire.Memory.{Store, new}
use gfire.Memory.Paired.{Paired}
use gfire.Memory.Moves.{Transition, apply, delete, retry, requeue, run_memory}
use gfire.Memory.Tests.{morning, noon, email, state_at}
use gfire.Postgres.{find_row, Tables, Session, unheard, quiet}
use gfire.Postgres.Jobs.{enqueue, enqueue_idempotent, prepared, plain_state, new_row}
use gfire.Postgres.States.{delete_job, move_row, set_state}
use gfire.Postgres.Scheduled.{due_ticket, add_scheduled, get_due_scheduled}
use gfire.Postgres.Represents.{Represents}
use gfire.Postgres.Refinement.{run_postgres, run_postgres-run_memory}
use gfire.Postgres.Atomic.{enqueue_idempotent_retried, IsServed, again}
use gfire.Postgres.Atomic.Written.{IsWhole, count_key}
use gfire.Postgres.Hazards.{deleted_row_returns}

abbrev no_rows : Tables
no_rows = record {
  jobs = [];
  states = [];
  scheduled = [];
  counters = empty;
  sequence = 1;
  servers = empty;
  recurring = empty;
  continuations = [];
  locks = empty;
}

abbrev one_row : Tables
unfolding enqueue
one_row = (enqueue quiet morning "mail" email no_rows).1

abbrev history : List JobState
history = plain_state state_enqueued "" 100 ∷ []

abbrev same_history : Store
same_history = record new { jobs = insert "a" email empty; job_states = insert "a" history empty }

same_history-Represents : Represents one_row same_history.job_states
unfolding one_row enqueue
same_history-Represents id = elim (Bool-cases ("a" == id)) [
  | inl e ↦ rw e (
    new_row email state_enqueued none 1 100,
    plain_state state_enqueued "" 100,
    refl,
    refl,
    refl,
    refl,
  )
  | inr e ↦ rw e refl
]

same_history-Paired : Paired same_history
same_history-Paired id = elim (Bool-cases ("a" == id)) [ inl e ↦ rw e refl | inr e ↦ rw e refl ]

abbrev steps : List Transition
steps =
    apply noon "a" state_enqueued (state_at state_processing 200)
    ∷ apply noon "a" state_processing (state_at state_failed 300)
    ∷ retry noon "a" 900
    ∷ apply noon "a" state_processing (state_at state_failed 301)
    ∷ requeue noon "a" "again"
    ∷ delete noon "a"
    ∷ requeue noon "a" "again"
    ∷ []

run_postgres-run_memory_example :
    ((run_postgres steps one_row).0 ≡ (run_memory steps same_history).0)
    × Represents (run_postgres steps one_row).1 (run_memory steps same_history).1.job_states
run_postgres-run_memory_example =
    run_postgres-run_memory steps one_row same_history same_history-Represents same_history-Paired

-- The answer to the COMMIT is lost.
abbrev lost_answer : Session
lost_answer = record quiet { commit = unheard }

abbrev keyed_email : Job
keyed_email = record email { id = ""; idempotency_key = "k1" }

keyed : keyed_email.idempotency_key ≢ ""
keyed = distinct "k1" "" refl

no_rows-IsWhole : IsWhole "k1" no_rows
unfolding count_key
no_rows-IsWhole = (omega arith, λ id e. cc)

enqueue_idempotent_retried_example : IsServed "k1" (
    enqueue_idempotent
      (again lost_answer)
      noon
      "mail"
      keyed_email
      (enqueue_idempotent lost_answer morning "mail" keyed_email no_rows).1)
enqueue_idempotent_retried_example =
    enqueue_idempotent_retried lost_answer morning noon "mail" keyed_email
      (prepared noon "mail" keyed_email).args no_rows keyed no_rows-IsWhole no_rows-IsWhole refl
      refl

abbrev nothing_locked : String → Bool
nothing_locked id = false

abbrev planned : Tables
unfolding add_scheduled
planned = (add_scheduled quiet morning 400 email no_rows).1

scheduled_is_open : irreversible_states "Scheduled" ≡ false
unfolding irreversible_states
scheduled_is_open = refl

planned-find_row : find_row "a" planned.jobs ≡ some (new_row email state_scheduled none 1 100)
unfolding planned add_scheduled
planned-find_row = refl

planned_schedule : planned.scheduled ≡ ("a", 400) ∷ []
unfolding planned add_scheduled
planned_schedule = refl

deleted_row_returns_example :
    (t1 : Tables) × (t2 : Tables) × (delete_job quiet noon "a" planned ≡ (ok tt, t1))
    × (find_row "a" t1.jobs
        ≡ some (move_row "Deleted" (noon.clock 0) (new_row email state_scheduled none 1 100)))
    × (get_due_scheduled quiet noon 900 (pos 100) t1 ≡ (ok (due_ticket "a" ∷ []), t2))
    × (find_row "a" t2.jobs
        ≡ some (
            set_state "Enqueued"
              (noon.clock 0)
              (move_row "Deleted" (noon.clock 0) (new_row email state_scheduled none 1 100))))
deleted_row_returns_example =
    deleted_row_returns noon noon "a" 400 900 (new_row email state_scheduled none 1 100) planned
      planned-find_row scheduled_is_open planned_schedule refl
