-- ===== src/Memory/Calls/Safety/Methods.antt =====
-- Consistency of the store under the methods of memory.go that change a stored job.
use gfire.Prelude.{
  ℕ, ◌≡◌, String, Bool, true, false, not, ◌&&◌, some, List, [], ◌∷◌, ◌++◌, ◌==◌, if◌then◌else◌,
  last?, last?-cons, Bool-cases, Option-cases, inl, inr,
}
use gfire.Prelude.Dict.{contains, insert, erase, contains_of_eq}
use gfire.Job.{JobState, Runtime, irreversible_states, last_name, state_processing, state_failed}
use gfire.Memory.{Store, read_list}
use gfire.Memory.Queues
use gfire.Memory.Queues.{prepare, insert_job}
use gfire.Memory.States
use gfire.Memory.States.{current_or_enqueued}
use gfire.Memory.Calls.{Safe}
use gfire.Memory.WellFormed.{
  IsWellFormed, push-Consistent, put-Consistent, schedule-Consistent, stop-Consistent,
  beat-Consistent, silence-Consistent,
}

pub requeue-Safe :
    (rt : Runtime) (id reason : String) (s : Store)
    → IsWellFormed s
    → Safe IsWellFormed (Queues.requeue rt id reason s)
unfolding Queues.requeue
requeue-Safe rt id reason s w = elim (Option-cases (s.jobs id)) [
  | inl e ↦ rw (e, Queues.requeue) tt
  | inr (job, e) ↦ elim (Bool-cases (irreversible_states (last_name (read_list id s.job_states)))) [
    | inl t ↦ rw (e, t, Queues.requeue) tt
    | inr t ↦
        rw (e, t, Queues.requeue)
          (stop-Consistent id
            (push-Consistent id w (read_list id s.job_states) _ (contains_of_eq id s.jobs e)))
  ]
]

-- A decision between a change of the maps that an invariant is about, and none.
erase_if-Consistent :
    (b : Bool) (id : String) (s : Store)
    → IsWellFormed s
    → IsWellFormed (record s { processing = if b then erase id s.processing else s.processing })
erase_if-Consistent true id s w = stop-Consistent id w
erase_if-Consistent false id s w = w

pub apply_state-Safe :
    (rt : Runtime) (id expected : String) (st : JobState) (s : Store)
    → IsWellFormed s
    → Safe IsWellFormed (States.apply_state rt id expected st s)
unfolding States.apply_state
apply_state-Safe rt id expected st s w = elim (Option-cases (s.job_states id)) [
  | inl e ↦ rw (e, States.apply_state) tt
  | inr (l, e) ↦ elim (Bool-cases (current_or_enqueued (last? l) == expected)) [
    | inl t ↦
        rw (e, t, States.apply_state)
          (erase_if-Consistent (expected == state_processing && not (st.name == state_processing))
            id (record s { job_states = insert id (l ++ States.stamped rt st ∷ []) s.job_states })
            (push-Consistent id w l _ (w.known_history id (contains_of_eq id s.job_states e))))
    | inr t ↦ rw (e, t, States.apply_state) tt
  ]
]

-- The last state of a stored history.
last_state :
    (s : Store) (id : String) (l : List JobState)
    → IsWellFormed s
    → s.job_states id ≡ some l
    → (st : JobState) × (last? l ≡ some st)
last_state s id [] w e = cc (w.nonempty id [] e)
last_state s id (x ∷ r) w e = last?-cons x r

pub schedule_retry-Safe :
    (rt : Runtime) (id : String) (at : ℕ) (s : Store)
    → IsWellFormed s
    → Safe IsWellFormed (States.schedule_retry rt id at s)
unfolding States.schedule_retry
schedule_retry-Safe rt id at s w = elim (Option-cases (s.job_states id)) [
  | inl e ↦ rw (e, States.schedule_retry) tt
  | inr (l, e) ↦
      let (st, f) = last_state s id l w e in
      let known : contains id s.jobs ≡ true =
        w.known_history id (contains_of_eq id s.job_states e) in
      elim (Bool-cases (st.name == state_failed)) [
        | inl t ↦
            rw (e, f, t, States.schedule_retry)
              (schedule-Consistent id (push-Consistent id w l _ known) at known)
        | inr t ↦ rw (e, f, t, States.schedule_retry) tt
      ]
]

pub delete_job-Safe :
    (rt : Runtime) (id : String) (s : Store)
    → IsWellFormed s
    → Safe IsWellFormed (States.delete_job rt id s)
unfolding States.delete_job
delete_job-Safe rt id s w = elim (Option-cases (s.job_states id)) [
  | inl e ↦ rw (e, States.delete_job) tt
  | inr (l, e) ↦
      let (st, f) = last_state s id l w e in
      elim (Bool-cases (irreversible_states st.name)) [
        | inl t ↦ rw (e, f, t, States.delete_job) tt
        | inr t ↦
            rw (e, f, t, States.delete_job)
              (silence-Consistent id (
                stop-Consistent id (
                  push-Consistent id w l _
                    (w.known_history id (contains_of_eq id s.job_states e)))))
      ]
]

pub set_job_result-Safe :
    (id : String) (result : List ℕ) (s : Store)
    → IsWellFormed s
    → Safe IsWellFormed (States.set_job_result id result s)
unfolding States.set_job_result
set_job_result-Safe id result s w = elim (Option-cases (s.jobs id)) [
  | inl e ↦ rw (e, States.set_job_result) tt
  | inr (job, e) ↦
      rw (e, States.set_job_result)
        (put-Consistent id w _ (w.keyed id job e) (contains_of_eq id s.jobs e))
]

pub heartbeat_job-Safe :
    (rt : Runtime) (id : String) (s : Store)
    → IsWellFormed s
    → Safe IsWellFormed (States.heartbeat_job rt id s)
unfolding States.heartbeat_job
heartbeat_job-Safe rt id s w = elim (Option-cases (s.jobs id)) [
  | inl e ↦ rw (e, States.heartbeat_job) tt
  | inr (job, e) ↦
      rw (e, States.heartbeat_job) (beat-Consistent id w _ (contains_of_eq id s.jobs e))
]
