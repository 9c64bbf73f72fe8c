-- ===== src/Engine/Storage.antt =====
-- The part of the interface storage.Storage (internal/storage/storage.go) that a worker uses: its
-- methods over a state of any type, and what the worker relies on. memory.go implements it.
use gfire.Prelude.{
  ℕ, ◌≡◌, refl, sym, ap, ◌∙◌, String, Option, some, List, [], ◌∷◌, ◌++◌, last?, Option-cases,
  Bool-cases, inl, inr, eq_iff, ◌+◌, ◌==◌, if◌then◌else◌, arith, length-append,
}
use gfire.Prelude.Dict.{eq_self}
use gfire.Prelude.Result.{Result, ok}
use gfire.Job.{Job, JobState, JobWithStates, ContinuationEntry, Runtime, state_failed}
use gfire.Memory.{Store, read_list}
use gfire.Memory.States
use gfire.Memory.States.{stamped, scheduled_state, record_state}
use gfire.Memory.Queues
use gfire.Memory.Query
use gfire.Memory.Transitions.Compare.{apply_state_moves}

pub record Storage : Type 1 where
  pub State : Type 0
  pub get_job : String → State → Result JobWithStates
  pub set_job_result : String → List ℕ → State → Result State
  pub apply_state : Runtime → String → String → JobState → State → Result State
  pub schedule_retry : Runtime → String → ℕ → State → Result State
  pub get_continuations : String → State → Result (List ContinuationEntry)
  pub enqueue : Runtime → String → Job → State → Result (String × State)
  -- What is seen of a state: the history of a job and the time at which it is due.
  pub history : String → State → List JobState
  pub due : String → State → Option ℕ
  -- The number of jobs that wait in a queue.
  pub pending : String → State → ℕ
  -- ApplyState from the expected state adds the new state.
  pub apply_state_law :
      (rt : Runtime) (id : String) (st cur : JobState) (s : State)
      → last? (history id s) ≡ some cur
      → (t : State) × (apply_state rt id cur.name st s ≡ ok t)
        × (history id t ≡ history id s ++ stamped rt st ∷ [])
  -- ScheduleRetry of a failed job adds a Scheduled state and sets the time.
  pub schedule_retry_law :
      (rt : Runtime) (id : String) (at : ℕ) (cur : JobState) (s : State)
      → last? (history id s) ≡ some cur
      → cur.name ≡ state_failed
      → (t : State) × (schedule_retry rt id at s ≡ ok t)
        × (history id t ≡ history id s ++ scheduled_state rt at (rt.clock 0) ∷ [])
        × (due id t ≡ some at)
  -- Enqueue succeeds and puts one job into its queue.
  pub enqueue_law :
      (rt : Runtime) (queue : String) (job : Job) (s : State)
      → (id : String) × (t : State) × (enqueue rt queue job s ≡ ok (id, t))
        × ((q : String) → pending q t ≡ pending q s + (if queue == q then 1 else 0))

pub memory_enqueue_law :
    (rt : Runtime) (queue : String) (job : Job) (s : Store)
    → (id : String) × (t : Store) × (◌≡◌ {A = Result (String × Store)}
        (ok (Queues.enqueue rt queue job s))
        (ok (id, t)))
      × ((q : String)
          → Query.get_queue_length q t ≡ Query.get_queue_length q s + (if queue == q then 1 else 0))
unfolding Queues.enqueue Query.get_queue_length
memory_enqueue_law rt queue job s = (
  (Queues.enqueue rt queue job s).0,
  (Queues.enqueue rt queue job s).1,
  refl,
  λ q. elim (Bool-cases (queue == q)) [
    | inl e ↦
        rw (e, (eq_iff queue q).0 e)
          (length-append (read_list q s.queues) ((Queues.prepare rt job).id ∷ []))
    | inr e ↦ rw e (omega arith)
  ],
)

states_of :
    (id : String) (s : Store) (cur : JobState)
    → last? (read_list id s.job_states) ≡ some cur
    → (l : List JobState) × (s.job_states id ≡ some l) × (read_list id s.job_states ≡ l)
states_of id s cur h = elim (Option-cases (s.job_states id)) [
  | inl e ↦ cc (rw e at h)
  | inr (l, e) ↦ (l, e, rw e refl)
]

pub memory_apply_state_law :
    (rt : Runtime) (id : String) (st cur : JobState) (s : Store)
    → last? (read_list id s.job_states) ≡ some cur
    → (t : Store) × (States.apply_state rt id cur.name st s ≡ ok t)
      × (read_list id t.job_states ≡ read_list id s.job_states ++ stamped rt st ∷ [])
memory_apply_state_law rt id st cur s h =
    let (l, e, same) = states_of id s cur h in
    let (t, done, new) =
      apply_state_moves rt id cur.name st cur l s e (ap last? (sym same) ∙ h) refl in
    (t, done, rw new (ap (λ x. x ++ stamped rt st ∷ []) (sym same)))

pub memory_schedule_retry_law :
    (rt : Runtime) (id : String) (at : ℕ) (cur : JobState) (s : Store)
    → last? (read_list id s.job_states) ≡ some cur
    → cur.name ≡ state_failed
    → (t : Store) × (States.schedule_retry rt id at s ≡ ok t)
      × (read_list id t.job_states
          ≡ read_list id s.job_states ++ scheduled_state rt at (rt.clock 0) ∷ [])
      × (t.scheduled id ≡ some at)
unfolding States.schedule_retry
memory_schedule_retry_law rt id at cur s h failed =
    let (l, e, same) = states_of id s cur h in
    let last : last? l ≡ some cur = ap last? (sym same) ∙ h in
    (
      States.add_retry rt id at l s,
      rw (e, last, (eq_iff cur.name state_failed).1 failed, States.schedule_retry) refl,
      rw (eq_self id) (ap (λ x. x ++ scheduled_state rt at (rt.clock 0) ∷ []) (sym same)),
      rw (eq_self id) refl,
    )

-- memory.Storage as an implementation; its methods keep what the interface promises.
abbrev pub memory : Storage
memory = record {
  State = Store;
  get_job = Query.get_job;
  set_job_result = States.set_job_result;
  apply_state = States.apply_state;
  schedule_retry = States.schedule_retry;
  get_continuations = λ id s. ok (Query.get_continuations id s);
  enqueue = λ rt q job s. ok (Queues.enqueue rt q job s);
  history = λ id s. read_list id s.job_states;
  due = λ id s. s.scheduled id;
  pending = Query.get_queue_length;
  apply_state_law = memory_apply_state_law;
  schedule_retry_law = memory_schedule_retry_law;
  enqueue_law = memory_enqueue_law;
}
