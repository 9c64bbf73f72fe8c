-- ===== src/Memory/Calls/Safety/Passage.antt =====
-- Consistency of the store under the methods of memory.go that create, hand out, promote and remove
-- jobs, and those about servers, recurring entries and locks.
use gfire.Prelude.{
  ℕ, suc, ◌≡◌, refl, String, Bool, true, false, List, [], ◌∷◌, ◌==◌, if◌then◌else◌, last?,
  Bool-cases, Option-cases, List-cases, inl, inr, In,
}
use gfire.Prelude.Int.{ℤ}
use gfire.Prelude.Dict.{contains, insert, contains_of_eq}
use gfire.Prelude.Result.{Result, ok, err, fault, ◌>>=◌}
use gfire.Job.{Job, Runtime}
use gfire.Memory.{Store, MemoryLock, read_list}
use gfire.Memory.Queues
use gfire.Memory.Queues.{prepare, insert_job}
use gfire.Memory.Dispatch.{dequeue_pass_unheld}
use gfire.Memory.Due.Collect.{collect_due_induction, is_due-known}
use gfire.Memory.Registry
use gfire.Memory.Scheduled
use gfire.Memory.Recurring
use gfire.Memory.Locks
use gfire.Memory.Maintenance
use gfire.Memory.Calls.{Safe, Keeps, left}
use gfire.Memory.WellFormed.{
  IsWellFormed, push-Consistent, unschedule-Consistent, start-Consistent, beat-Consistent,
  create-Consistent, defer-Consistent, forget-Consistent,
}

pub insert_job-IsWellFormed :
    (rt : Runtime) (q : String) (job : Job) (s : Store)
    → IsWellFormed s
    → IsWellFormed (insert_job rt q job s)
unfolding insert_job
insert_job-IsWellFormed rt q job s w = create-Consistent job.id w job _ _ refl

pub enqueue_idempotent-IsWellFormed :
    (rt : Runtime) (q : String) (job : Job) (s : Store)
    → IsWellFormed s
    → IsWellFormed (Queues.enqueue_idempotent rt q job s).2
unfolding Queues.enqueue_idempotent
enqueue_idempotent-IsWellFormed rt q job s w = elim (Bool-cases (job.idempotency_key == "")) [
  | inl e ↦ rw (e, Queues.enqueue_idempotent) (create-Consistent _ w (prepare rt job) _ _ refl)
  | inr e ↦ elim (Option-cases (s.idempotency job.idempotency_key)) [
    | inl f ↦ rw (e, f, Queues.enqueue_idempotent) (create-Consistent _ w (prepare rt job) _ _ refl)
    | inr (old, f) ↦ rw (e, f, Queues.enqueue_idempotent) w
  ]
]

pub promote_all-Safe :
    (rt : Runtime) (i : ℕ) (due : List String) (s : Store)
    → IsWellFormed s
    → ((id : String) → In id due → contains id s.jobs ≡ true)
    → Safe IsWellFormed (Scheduled.promote_all rt i due s)
unfolding Scheduled.promote_all
promote_all-Safe rt i [] s w known = w
promote_all-Safe rt i (id ∷ due) s w known = elim (Option-cases (s.jobs id)) [
  | inl e ↦ cc (known id (inl refl))
  | inr (job, e) ↦
      rw (e, Scheduled.promote_all)
        (promote_all-Safe rt (suc i) due _
          (push-Consistent id (unschedule-Consistent id w) _ _ (contains_of_eq id s.jobs e))
          (λ j m. known j (inr m)))
]

pub add_scheduled-IsWellFormed :
    (rt : Runtime) (at : ℕ) (job : Job) (s : Store)
    → IsWellFormed s
    → IsWellFormed (Scheduled.add_scheduled rt at job s).1
unfolding Scheduled.add_scheduled
add_scheduled-IsWellFormed rt at job s w = defer-Consistent _ w _ _ at refl

notify-IsWellFormed :
    (due : List String) (s : Store) → IsWellFormed s → IsWellFormed (Scheduled.notify due s)
notify-IsWellFormed [] s w = w
notify-IsWellFormed (id ∷ due) s w = w

left-notify-Safe :
    (due : List String) (r : Result Store)
    → Safe IsWellFormed r
    → Safe IsWellFormed (left (r >>= λ s. ok (Scheduled.tickets due, Scheduled.notify due s)))
left-notify-Safe due (ok s) w = notify-IsWellFormed due s w
left-notify-Safe due (err e) w = tt
left-notify-Safe due fault w = elim w [ ]

pub get_due_scheduled-Safe :
    (rt : Runtime) (order : List String) (now : ℕ) (batch : ℤ) (s : Store)
    → IsWellFormed s
    → Safe IsWellFormed (left (Scheduled.get_due_scheduled rt order now batch s))
unfolding Scheduled.get_due_scheduled
get_due_scheduled-Safe rt order now batch s w = left-notify-Safe _ _ (
    promote_all-Safe rt 0 (Scheduled.collect_due now batch order s.scheduled []) s w (
      collect_due_induction (λ id. contains id s.jobs ≡ true) now batch s.scheduled
        (λ id h. w.known_scheduled id (is_due-known (s.scheduled id) now h)) order []
        (λ id m. absurd m)))

if-IsWellFormed :
    (b : Bool) (s t : Store) → IsWellFormed s → IsWellFormed t → IsWellFormed (if b then s else t)
if-IsWellFormed true s t h k = h
if-IsWellFormed false s t h k = k

pub remove_visited-IsWellFormed :
    (cutoff : ℕ) (order : List String) (deleted : ℕ) (s : Store)
    → IsWellFormed s
    → IsWellFormed (Maintenance.remove_visited cutoff order deleted s).1
unfolding Maintenance.remove_visited
remove_visited-IsWellFormed cutoff [] deleted s w = w
remove_visited-IsWellFormed cutoff (id ∷ order) deleted s w =
    remove_visited-IsWellFormed cutoff order _ _ (
      if-IsWellFormed (Maintenance.is_expired cutoff (last? (read_list id s.job_states)))
        (Maintenance.forget id s) s (forget-Consistent id w) w)

pub dequeue_pass-Keeps :
    (rt : Runtime) (qs : List String) (s : Store)
    → IsWellFormed s
    → Keeps IsWellFormed (left (Queues.dequeue_pass rt true qs s))
unfolding Queues.dequeue_pass
dequeue_pass-Keeps rt [] s w = w
dequeue_pass-Keeps rt (q ∷ qs) s w = elim (List-cases (read_list q s.queues)) [
  | inl e ↦ rw (e, Queues.dequeue_pass) (dequeue_pass-Keeps rt qs s w)
  | inr (id, rest, e) ↦ elim (Option-cases (s.jobs id)) [
    | inl f ↦
        rw
          (
            e,
            f,
            dequeue_pass_unheld rt qs (record s { queues = insert q rest s.queues }),
            Queues.dequeue_pass,
          )
          tt
    | inr (job, f) ↦
        let known : contains id s.jobs ≡ true = contains_of_eq id s.jobs f in
        rw (e, f, Queues.dequeue_pass)
          (push-Consistent id (beat-Consistent id (start-Consistent id w "local" known) _ known)
            (read_list id s.job_states) _ known)
  ]
]

-- The methods about servers, recurring entries and locks write none of the maps that count here.
pub heartbeat-Safe :
    (rt : Runtime) (id : String) (ttl : ℤ) (s : Store)
    → IsWellFormed s
    → Safe IsWellFormed (Registry.heartbeat rt id ttl s)
unfolding Registry.heartbeat
heartbeat-Safe rt id ttl s w = elim (Option-cases (s.servers id)) [
  | inl e ↦ rw (e, Registry.heartbeat) tt
  | inr (sv, e) ↦ rw (e, Registry.heartbeat) w
]

pub update_recurring_last_run-Safe :
    (rt : Runtime) (id : String) (last next : ℕ) (s : Store)
    → IsWellFormed s
    → Safe IsWellFormed (Recurring.update_recurring_last_run rt id last next s)
unfolding Recurring.update_recurring_last_run
update_recurring_last_run-Safe rt id last next s w = elim (Option-cases (s.recurring id)) [
  | inl e ↦ rw (e, Recurring.update_recurring_last_run) tt
  | inr (entry, e) ↦ rw (e, Recurring.update_recurring_last_run) w
]

pub acquire_lock-Safe :
    (rt : Runtime) (resource : String) (ttl : ℤ) (s : Store)
    → IsWellFormed s
    → Safe IsWellFormed (left (Locks.acquire_lock rt resource ttl s))
unfolding Locks.acquire_lock
acquire_lock-Safe rt resource ttl s w =
    elim (Bool-cases (Locks.is_held (s.locks resource) (rt.clock 0))) [
      | inl e ↦ rw e tt
      | inr e ↦ rw e w
    ]

pub release-Safe :
    (l : MemoryLock) (s : Store) → IsWellFormed s → Safe IsWellFormed (left (Locks.release l s))
unfolding Locks.release
release-Safe l s w = elim (Bool-cases l.released) [
  | inl e ↦ rw e tt
  | inr e ↦ elim (Bool-cases (Locks.is_owner (s.locks l.resource) l.owner_id)) [
    | inl f ↦ rw (e, f) w
    | inr f ↦ rw (e, f) tt
  ]
]
