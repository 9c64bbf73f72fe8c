-- ===== src/Memory/Orphans.antt =====
-- GetOrphanedJobs and the requeue of what it finds: memory.go, and coordinatorTick of
-- internal/engine/coordinator.go, which requeues every ticket that it returns.
use gfire.Prelude.{
  ℕ, ◌≡◌, ◌↔◌, ◌<◌, refl, sym, ap, subst, String, true, Option, none, some, List, [], ◌∷◌, ◌++◌,
  Option-cases, Bool-cases, inl, inr, In, last?-append, lt→ltb, ltb→lt,
}
use gfire.Prelude.Int.{ℤ}
use gfire.Prelude.Text.{◌<>◌}
use gfire.Prelude.Dict.{Dict, eq_self}
use gfire.Prelude.Result.{ok, ok_path}
use gfire.Job.{Job, JobState, JobTicket, Runtime, irreversible_states, last_name, state_enqueued}
use gfire.Memory.{Store, read_list}
use gfire.Memory.States.{apply_state}
use gfire.Memory.Queues.{requeue, put_back, requeued_state}
use gfire.Memory.Query.{get_orphaned_jobs, orphans, is_before, sub_time}
use gfire.Memory.Transitions.Compare.{apply_state_inv}

abbrev pub orphan_ticket : String → JobTicket
orphan_ticket id = record { job_id = id; token = "orphan-" <> id }

-- A job is reported when its last heartbeat is older than the given age, and it is reported in
-- whatever state it is: no other map is read.
orphans_complete :
    (cutoff t : ℕ) (order : List String) (id : String) (progress : Dict ℕ)
    → In id order
    → progress id ≡ some t
    → t < cutoff
    → In (orphan_ticket id) (orphans cutoff order progress)
unfolding orphans
orphans_complete cutoff t [] id progress m p h = elim m [ ]
orphans_complete cutoff t (k ∷ order) id progress (inl e) p h =
    rw (← e, p, lt→ltb t cutoff h) (inl refl)
orphans_complete cutoff t (k ∷ order) id progress (inr m) p h =
    elim (Bool-cases (is_before (progress k) cutoff)) [
      | inl b ↦ rw b (inr (orphans_complete cutoff t order id progress m p h))
      | inr b ↦ rw b (orphans_complete cutoff t order id progress m p h)
    ]

stale_at :
    (o : Option ℕ) (cutoff : ℕ) → is_before o cutoff ≡ true → (t : ℕ) × (o ≡ some t) × (t < cutoff)
stale_at none cutoff h = cc
stale_at (some t) cutoff h = (t, refl, ltb→lt t cutoff h)

orphans_sound :
    (cutoff : ℕ) (order : List String) (id : String) (progress : Dict ℕ)
    → In (orphan_ticket id) (orphans cutoff order progress)
    → (t : ℕ) × (progress id ≡ some t) × (t < cutoff)
unfolding orphans
orphans_sound cutoff [] id progress m = absurd m
orphans_sound cutoff (k ∷ order) id progress m = elim (Bool-cases (is_before (progress k) cutoff)) [
  | inl b ↦ elim (rw b at m) [
    | inl e ↦
        let same : k ≡ id = sym (ap (λ (x : JobTicket). x.job_id) e) in
        subst (λ i. (t : ℕ) × (progress i ≡ some t) × (t < cutoff)) same
          (stale_at (progress k) cutoff b)
    | inr n ↦ orphans_sound cutoff order id progress n
  ]
  | inr b ↦ orphans_sound cutoff order id progress (rw b at m)
]

-- GetOrphanedJobs reports a visited job exactly when its last heartbeat is older than the given
-- age, whatever its state.
pub get_orphaned_jobs_lem :
    (rt : Runtime) (order : List String) (age : ℤ) (id : String) (s : Store)
    → In id order
    → In (orphan_ticket id) (get_orphaned_jobs rt order age s)
      ↔ ((t : ℕ) × (s.progress id ≡ some t) × (t < sub_time (rt.clock 0) age))
unfolding get_orphaned_jobs
get_orphaned_jobs_lem rt order age id s m = (
  orphans_sound (sub_time (rt.clock 0) age) order id s.progress,
  λ h. orphans_complete (sub_time (rt.clock 0) age) h.0 order id s.progress m h.1 h.2,
)

-- So a job that has succeeded stays among the orphans: the transition leaves its heartbeat, and
-- the reports before and after it are the same.
pub orphans_after_transition :
    (rt rt' : Runtime) (order : List String) (age : ℤ) (id expected : String) (st : JobState)
    (s t : Store)
    → apply_state rt id expected st s ≡ ok t
    → get_orphaned_jobs rt' order age t ≡ get_orphaned_jobs rt' order age s
unfolding get_orphaned_jobs
orphans_after_transition rt rt' order age id expected st s t h =
    let (l, e, same) = apply_state_inv rt id expected st s t h in
    ap (λ (x : Store). get_orphaned_jobs rt' order age x) (sym same)

pub requeue_inv :
    (rt : Runtime) (id reason : String) (s t : Store)
    → requeue rt id reason s ≡ ok t
    → (job : Job) × (s.jobs id ≡ some job) × (put_back rt id reason job s ≡ t)
unfolding requeue
requeue_inv rt id reason s t h = elim (Option-cases (s.jobs id)) [
  | inl e ↦ cc (rw (e, requeue) at h)
  | inr (job, e) ↦ elim (Bool-cases (irreversible_states (last_name (read_list id s.job_states)))) [
    | inl f ↦ cc (rw (e, f, requeue) at h)
    | inr f ↦ (job, e, ok_path (put_back rt id reason job s) t (rw (e, f, requeue) at h))
  ]
]

-- After a successful Requeue of a job, GetOrphanedJobs reports what it reported before, and a
-- second Requeue succeeds too: the job is then twice at the end of its queue.
pub orphan_requeued_again :
    (rt rt' rt'' : Runtime) (order : List String) (age : ℤ) (id reason : String) (s t : Store)
    → requeue rt id reason s ≡ ok t
    → (get_orphaned_jobs rt' order age t ≡ get_orphaned_jobs rt' order age s)
      × (job : Job) × (u : Store) × (s.jobs id ≡ some job)
      × (requeue rt'' id reason t ≡ ok u)
      × (read_list job.queue u.queues
          ≡ (read_list job.queue s.queues ++ job.id ∷ []) ++ job.id ∷ [])
unfolding get_orphaned_jobs requeue irreversible_states
orphan_requeued_again rt rt' rt'' order age id reason s t h =
    let (job, e, same) = requeue_inv rt id reason s t h in
    let known : t.jobs id ≡ some job = subst (λ (x : Store). x.jobs id ≡ some job) same e in
    let last : last_name (read_list id t.job_states) ≡ state_enqueued =
      subst (λ (x : Store). last_name (read_list id x.job_states) ≡ state_enqueued) same
        (rw
          (
            eq_self id,
            last?-append (read_list id s.job_states) (requeued_state reason (rt.clock 0)),
          )
          refl) in
    (
      ap (λ (x : Store). get_orphaned_jobs rt' order age x) (sym same),
      job,
      put_back rt'' id reason job t,
      e,
      rw (known, last, requeue) refl,
      rw (eq_self job.queue) (
          ap (λ (x : List String). x ++ job.id ∷ [])
            (subst
              (λ (x : Store).
                read_list job.queue x.queues ≡ read_list job.queue s.queues ++ job.id ∷ [])
              same (rw (eq_self job.queue) refl))),
    )
