-- ===== src/Memory/Calls/Live.antt =====
-- The queues of memory.go and the jobs that their entries name.
use gfire.Prelude.{
  ℕ, suc, ◌≡◌, refl, subst, sym, String, Bool, true, false, some, List, [], ◌∷◌, ◌++◌, ◌==◌, arith,
  Option-cases, List-cases, Bool-cases, inl, inr, All,
}
use mathlib.Core.Bool.{false≢true}
use gfire.Prelude.Dict.{Dict, contains, insert, Within-insert_right, contains_of_eq, eq_self}
use gfire.Prelude.Result.{Result, ok, err, fault, ◌>>=◌}
use gfire.Job.{Job, Runtime, irreversible_states, last_name}
use gfire.Memory.{Store, new, read_list, push_back}
use gfire.Memory.Queues
use gfire.Memory.Queues.{insert_job, prepare}
use gfire.Memory.States
use gfire.Memory.Scheduled
use gfire.Memory.Registry
use gfire.Memory.Recurring
use gfire.Memory.Locks
use gfire.Memory.WellFormed.{IsWellFormed, new-IsWellFormed}
use gfire.Memory.Calls.{Call, perform, run, left, Safe, Keeps}
use gfire.Memory.Calls.Safety.{perform-Safe, perform-Keeps}

-- Every queued id has its job.
pub record AllKnown (queues : Dict (List String)) (jobs : Dict Job) : Type 0 where
  pub at : (q : String) → All (λ id. contains id jobs ≡ true) (read_list q queues)

All-imp :
    (P Q : String → Type 0) → ((x : String) → P x → Q x) → (xs : List String) → All P xs → All Q xs
All-imp P Q f [] h = tt
All-imp P Q f (x ∷ xs) h = (f x h.0, All-imp P Q f xs h.1)

All-snoc :
    (P : String → Type 0) (xs : List String) (x : String) → All P xs → P x → All P (xs ++ x ∷ [])
All-snoc P [] x h p = (p, tt)
All-snoc P (y ∷ xs) x h p = (h.0, All-snoc P xs x h.1 p)

module _ {queues : Dict (List String)} {jobs : Dict Job} (a : AllKnown queues jobs) where
  put-AllKnown : (id : String) (job : Job) → AllKnown queues (insert id job jobs)
  put-AllKnown id job = record {
    at = λ q.
        All-imp _ _ (Within-insert_right jobs jobs (λ k h. h) id job) (read_list q queues) (a.at q);
  }

  push_back-AllKnown :
      (q id : String) → contains id jobs ≡ true → AllKnown (push_back q id queues) jobs
  push_back-AllKnown q id known = record {
    at = λ r. elim (Bool-cases (q == r)) [
      | inl e ↦ rw e (All-snoc _ (read_list q queues) id (a.at q) known)
      | inr e ↦ rw e (a.at r)
    ];
  }

  pop-AllKnown :
      (q id : String) (rest : List String)
      → read_list q queues ≡ id ∷ rest
      → AllKnown (insert q rest queues) jobs
  pop-AllKnown q id rest e = record {
    at = λ r. elim (Bool-cases (q == r)) [
      | inl f ↦ rw f (subst (All (λ k. contains k jobs ≡ true)) e (a.at q)).1
      | inr f ↦ rw f (a.at r)
    ];
  }

  head_known :
      (q id : String) (rest : List String)
      → read_list q queues ≡ id ∷ rest
      → (job : Job) × (jobs id ≡ some job)
  head_known q id rest e = some_of_contains (subst (All (λ k. contains k jobs ≡ true)) e (a.at q)).0
    where
      some_of_contains : contains id jobs ≡ true → (job : Job) × (jobs id ≡ some job)
      some_of_contains h = elim (Option-cases (jobs id)) [
        | inl f ↦ absurd (false≢true (rw f at h))
        | inr found ↦ found
      ]

abbrev pub IsLive : Store → Type 0
IsLive s = AllKnown s.queues s.jobs

contains_self : {V : Type 0} (id : String) (v : V) (m : Dict V) → contains id (insert id v m) ≡ true
contains_self id v m = rw (eq_self id) refl

insert_job-IsLive :
    (rt : Runtime) (q : String) (job : Job) (s : Store) → IsLive s → IsLive (insert_job rt q job s)
unfolding insert_job
insert_job-IsLive rt q job s a =
    push_back-AllKnown (put-AllKnown a job.id job) q job.id (contains_self job.id job s.jobs)

enqueue_idempotent-IsLive :
    (rt : Runtime) (q : String) (job : Job) (s : Store)
    → IsLive s
    → IsLive (Queues.enqueue_idempotent rt q job s).2
unfolding Queues.enqueue_idempotent
enqueue_idempotent-IsLive rt q job s a = elim (Bool-cases (job.idempotency_key == "")) [
  | inl e ↦ rw (e, Queues.enqueue_idempotent) (insert_job-IsLive rt q (prepare rt job) s a)
  | inr e ↦ elim (Option-cases (s.idempotency job.idempotency_key)) [
    | inl f ↦ rw (e, f, Queues.enqueue_idempotent) (insert_job-IsLive rt q (prepare rt job) s a)
    | inr (old, f) ↦ rw (e, f, Queues.enqueue_idempotent) a
  ]
]

requeue-IsLive :
    (rt : Runtime) (id reason : String) (s : Store)
    → IsWellFormed s
    → IsLive s
    → Safe IsLive (Queues.requeue rt id reason s)
unfolding Queues.requeue
requeue-IsLive rt id reason s w a = elim (Option-cases (s.jobs id)) [
  | inl e ↦ rw (e, Queues.requeue) tt
  | inr (job, e) ↦ elim (Bool-cases (irreversible_states (last_name (read_list id s.job_states)))) [
    | inl t ↦ rw (e, t, Queues.requeue) tt
    | inr t ↦
        rw (e, t, Queues.requeue)
          (push_back-AllKnown a job.queue job.id (
            subst (λ k. contains k s.jobs ≡ true) (sym (w.keyed id job e))
              (contains_of_eq id s.jobs e)))
  ]
]

-- A pass over the queues does not crash.
dequeue_pass-IsLive :
    (rt : Runtime) (qs : List String) (s : Store)
    → IsLive s
    → Safe IsLive (left (Queues.dequeue_pass rt true qs s))
unfolding Queues.dequeue_pass
dequeue_pass-IsLive rt [] s a = a
dequeue_pass-IsLive rt (q ∷ qs) s a = elim (List-cases (read_list q s.queues)) [
  | inl e ↦ rw (e, Queues.dequeue_pass) (dequeue_pass-IsLive rt qs s a)
  | inr (id, rest, e) ↦
      let (job, f) = head_known a q id rest e in
      rw (e, f, Queues.dequeue_pass) (pop-AllKnown a q id rest e)
]

promote_all-IsLive :
    (rt : Runtime) (i : ℕ) (due : List String) (s : Store)
    → IsLive s
    → Keeps IsLive (Scheduled.promote_all rt i due s)
unfolding Scheduled.promote_all
promote_all-IsLive rt i [] s a = a
promote_all-IsLive rt i (id ∷ due) s a = elim (Option-cases (s.jobs id)) [
  | inl e ↦ rw (e, Scheduled.promote_all) tt
  | inr (job, e) ↦
      rw (e, Scheduled.promote_all)
        (promote_all-IsLive rt (suc i) due _
          (push_back-AllKnown a job.queue id (contains_of_eq id s.jobs e)))
]

abbrev pub is_removal : Call → Bool
is_removal (Call.remove_expired order cutoff) = true
is_removal _ = false

left-notify-IsLive :
    (due : List String) (r : Result Store)
    → Keeps IsLive r
    → Keeps IsLive (left (r >>= λ s. ok (Scheduled.tickets due, Scheduled.notify due s)))
left-notify-IsLive [] (ok s) a = a
left-notify-IsLive (id ∷ due) (ok s) a = a
left-notify-IsLive due (err e) a = tt
left-notify-IsLive due fault a = tt

Safe→Keeps : (P : Store → Type 0) (r : Result Store) → Safe P r → Keeps P r
Safe→Keeps P (ok s) h = h
Safe→Keeps P (err e) h = tt
Safe→Keeps P fault h = tt

perform-IsLive :
    (c : Call) (s : Store)
    → is_removal c ≡ false
    → IsWellFormed s
    → IsLive s
    → Keeps IsLive (perform c s)
unfolding perform Queues.enqueue Registry.register_server Registry.unregister_server
    Registry.heartbeat Scheduled.remove_scheduled Scheduled.add_scheduled
    Scheduled.get_due_scheduled Recurring.upsert_recurring Recurring.remove_recurring
    Recurring.update_recurring_last_run Recurring.add_continuation Recurring.remove_continuations
    Recurring.increment_counter Locks.acquire_lock Locks.release States.apply_state
    States.schedule_retry States.set_job_result States.heartbeat_job States.delete_job
perform-IsLive (Call.enqueue rt q job) s h w a = insert_job-IsLive rt q (prepare rt job) s a
perform-IsLive (Call.enqueue_idempotent rt q job) s h w a = enqueue_idempotent-IsLive rt q job s a
perform-IsLive (Call.dequeue_pass rt qs) s h w a =
    Safe→Keeps IsLive (left (Queues.dequeue_pass rt true qs s)) (dequeue_pass-IsLive rt qs s a)
perform-IsLive (Call.requeue rt id reason) s h w a =
    Safe→Keeps IsLive (Queues.requeue rt id reason s) (requeue-IsLive rt id reason s w a)
perform-IsLive (Call.set_job_result id result) s h w a = elim (Option-cases (s.jobs id)) [
  | inl e ↦ rw (e, States.set_job_result) tt
  | inr (job, e) ↦ rw (e, States.set_job_result) (put-AllKnown a id _)
]
perform-IsLive (Call.add_scheduled rt at job) s h w a = put-AllKnown a _ _
perform-IsLive (Call.get_due_scheduled rt order now batch) s h w a =
    left-notify-IsLive _ _ (promote_all-IsLive rt 0 _ s a)
perform-IsLive (Call.remove_expired order cutoff) s h w a = absurd (false≢true (sym h))
perform-IsLive c s h w a = ground arith

-- Consistent, and with every queued id known.
abbrev pub IsSound : Store → Type 0
IsSound s = IsWellFormed s × IsLive s

both : (r : Result Store) → Safe IsWellFormed r → Keeps IsLive r → Safe IsSound r
both (ok s) w a = (w, a)
both (err e) w a = tt
both fault w a = w

dequeue_both : (r : Result Store) → Keeps IsWellFormed r → Safe IsLive r → Safe IsSound r
dequeue_both (ok s) w a = (w, a)
dequeue_both (err e) w a = tt
dequeue_both fault w a = a

-- No call but RemoveExpired makes the store one in which a later call crashes.
perform-IsSound :
    (c : Call) (s : Store) → is_removal c ≡ false → IsSound s → Safe IsSound (perform c s)
unfolding perform
perform-IsSound (Call.dequeue_pass rt qs) s h v =
    dequeue_both (left (Queues.dequeue_pass rt true qs s))
      (perform-Keeps (Call.dequeue_pass rt qs) s v.0) (dequeue_pass-IsLive rt qs s v.1)
perform-IsSound c s h v =
    both (perform c s) (perform-Safe c s refl v.0) (perform-IsLive c s h v.0 v.1)

after-IsSound :
    (cs : List Call) (s : Store) (r : Result Store)
    → IsSound s
    → Safe IsSound r
    → ((t : Store) → IsSound t → Safe IsSound (run cs t))
    → Safe IsSound (elim r [ ok t ↦ run cs t | err e ↦ run cs s | fault ↦ fault ])
after-IsSound cs s (ok t) v h rest = rest t h
after-IsSound cs s (err e) v h rest = rest s v
after-IsSound cs s fault v h rest = h

run-IsSound :
    (cs : List Call) (s : Store)
    → All (λ c. is_removal c ≡ false) cs
    → IsSound s
    → Safe IsSound (run cs s)
unfolding run
run-IsSound [] s h v = v
run-IsSound (c ∷ cs) s h v =
    after-IsSound cs s (perform c s) v (perform-IsSound c s h.0 v) (λ t. run-IsSound cs t h.1)

-- Whatever calls of the methods that write are made on a store that New made, none of them
-- RemoveExpired, no call crashes, the store stays consistent, and every queued id has its job.
pub run-new-IsSound :
    (cs : List Call) → All (λ c. is_removal c ≡ false) cs → Safe IsSound (run cs new)
run-new-IsSound cs h = run-IsSound cs new h (new-IsWellFormed, record { at = λ q. tt })
