-- ===== src/Memory/Calls/Append.antt =====
-- The histories of the jobs under the calls of memory.go; internal/job/job.go calls states append-only.
use mathlib.Core.List.{append-nil, append_assoc}
use gfire.Prelude.{
  ℕ, suc, ◌≡◌, refl, sym, ap, subst, ◌∙◌, String, Bool, true, false, some, List, [], ◌∷◌, ◌++◌,
  ◌==◌, eq_iff, arith, Option-cases, List-cases, Bool-cases, inl, inr, last?,
}
use gfire.Prelude.Dict.{Dict, insert}
use gfire.Prelude.Result.{Result, ok, err, fault, ◌>>=◌}
use gfire.Job.{JobState, Runtime}
use gfire.Memory.{Store, read_list, push_state}
use gfire.Memory.Dispatch.{dequeue_pass_unheld}
use gfire.Memory.Queues
use gfire.Memory.States
use gfire.Memory.States.{current_or_enqueued}
use gfire.Memory.Scheduled
use gfire.Memory.Registry
use gfire.Memory.Recurring
use gfire.Memory.Locks
use gfire.Memory.Calls.{Call, perform, left, Keeps}

-- Every history of `m` is the beginning of the history of the same job in `n`.
pub record Extends (m n : Dict (List JobState)) : Type 0 where
  pub at :
      (k : String) (l : List JobState)
      → m k ≡ some l
      → (more : List JobState) × (n k ≡ some (l ++ more))

Extends-refl : (m : Dict (List JobState)) → Extends m m
Extends-refl m = record { at = λ k l e. ([], rw append-nil e) }

Extends-trans : {m n o : Dict (List JobState)} → Extends m n → Extends n o → Extends m o
Extends-trans h g = record {
  at = λ k l e.
      let (xs, e') = h.at k l e in
      let (ys, e'') = g.at k (l ++ xs) e' in (xs ++ ys, e'' ∙ ap some (append_assoc l xs ys));
}

Extends-insert :
    (m : Dict (List JobState)) (id : String) (l : List JobState) (st : JobState)
    → m id ≡ some l
    → Extends m (insert id (l ++ st ∷ []) m)
Extends-insert m id l st e = record {
  at = λ k l' e'. elim (Bool-cases (id == k)) [
    | inl f ↦ (st ∷ [], rw f (ap some (ap (λ x. x ++ st ∷ []) (same k l' f e'))))
    | inr f ↦ ([], rw (f, append-nil) e')
  ];
}
  where
    same : (k : String) (l' : List JobState) → (id == k) ≡ true → m k ≡ some l' → l ≡ l'
    same k l' f e' = let g : id ≡ k = (eq_iff id k).0 f in cc (ap m g)

Extends-push :
    (m : Dict (List JobState)) (id : String) (st : JobState) → Extends m (push_state id st m)
Extends-push m id st = record {
  at = λ k l e. elim (Bool-cases (id == k)) [
    | inl f ↦ (st ∷ [], rw f (rw (subst (λ j. m j ≡ some l) (sym ((eq_iff id k).0 f)) e) refl))
    | inr f ↦ ([], rw (f, append-nil) e)
  ];
}

-- Extends, of the histories of a store that a call leaves.
abbrev pub Grows : Store → Store → Type 0
Grows s t = Extends s.job_states t.job_states

promote_all-Grows :
    (rt : Runtime) (i : ℕ) (due : List String) (s₀ s : Store)
    → Grows s₀ s
    → Keeps (Grows s₀) (Scheduled.promote_all rt i due s)
unfolding Scheduled.promote_all
promote_all-Grows rt i [] s₀ s g = g
promote_all-Grows rt i (id ∷ due) s₀ s g = elim (Option-cases (s.jobs id)) [
  | inl e ↦ rw (e, Scheduled.promote_all) tt
  | inr (job, e) ↦
      rw (e, Scheduled.promote_all)
        (promote_all-Grows rt (suc i) due s₀ _ (Extends-trans g (Extends-push s.job_states id _)))
]

left-notify-Grows :
    (s₀ : Store) (due : List String) (r : Result Store)
    → Keeps (Grows s₀) r
    → Keeps (Grows s₀) (left (r >>= λ s. ok (Scheduled.tickets due, Scheduled.notify due s)))
left-notify-Grows s₀ [] (ok s) g = g
left-notify-Grows s₀ (id ∷ due) (ok s) g = g
left-notify-Grows s₀ due (err e) g = tt
left-notify-Grows s₀ due fault g = tt

dequeue_pass-Grows :
    (rt : Runtime) (qs : List String) (s : Store)
    → Keeps (Grows s) (left (Queues.dequeue_pass rt true qs s))
unfolding Queues.dequeue_pass
dequeue_pass-Grows rt [] s = Extends-refl s.job_states
dequeue_pass-Grows rt (q ∷ qs) s = elim (List-cases (read_list q s.queues)) [
  | inl e ↦ rw (e, Queues.dequeue_pass) (dequeue_pass-Grows rt qs s)
  | inr (id, rest, e) ↦ elim (Option-cases (s.jobs id)) [
    | inl f ↦
        rw
          (
            e,
            f,
            dequeue_pass_unheld rt qs (record s { queues = insert q rest s.queues }),
            Queues.dequeue_pass,
          )
          tt
    | inr (job, f) ↦ rw (e, f, Queues.dequeue_pass) (Extends-push s.job_states id _)
  ]
]

-- The calls that start or drop a history.
abbrev pub restarts : Call → Bool
restarts (Call.enqueue rt q job) = true
restarts (Call.enqueue_idempotent rt q job) = true
restarts (Call.add_scheduled rt at job) = true
restarts (Call.remove_expired order cutoff) = true
restarts _ = false

-- A call other than Enqueue, EnqueueIdempotent, AddScheduled and RemoveExpired leaves each
-- history as it is or adds states to its end.
pub perform-Grows : (c : Call) (s : Store) → restarts c ≡ false → Keeps (Grows s) (perform c s)
unfolding perform Registry.register_server Registry.unregister_server Registry.heartbeat
    Scheduled.remove_scheduled Scheduled.get_due_scheduled Recurring.upsert_recurring
    Recurring.remove_recurring Recurring.update_recurring_last_run Recurring.add_continuation
    Recurring.remove_continuations Recurring.increment_counter Locks.acquire_lock Locks.release
    Queues.requeue States.apply_state States.schedule_retry States.set_job_result
    States.heartbeat_job States.delete_job
perform-Grows (Call.enqueue rt q job) s h = cc
perform-Grows (Call.enqueue_idempotent rt q job) s h = cc
perform-Grows (Call.add_scheduled rt at job) s h = cc
perform-Grows (Call.remove_expired order cutoff) s h = cc
perform-Grows (Call.dequeue_pass rt qs) s h = dequeue_pass-Grows rt qs s
perform-Grows (Call.get_due_scheduled rt order now batch) s h =
    left-notify-Grows s _ _ (promote_all-Grows rt 0 _ s s (Extends-refl s.job_states))
perform-Grows (Call.requeue rt id reason) s h =
    ground (arith, Extends-push s.job_states id (Queues.requeued_state reason (rt.clock 0)))
perform-Grows (Call.apply_state rt id expected st) s h = elim (Option-cases (s.job_states id)) [
  | inl e ↦ rw (e, States.apply_state) tt
  | inr (l, e) ↦ elim (Bool-cases (current_or_enqueued (last? l) == expected)) [
    | inl t ↦ rw (e, t, States.apply_state) (Extends-insert s.job_states id l _ e)
    | inr t ↦ rw (e, t, States.apply_state) tt
  ]
]
perform-Grows (Call.schedule_retry rt id at) s h = elim (Option-cases (s.job_states id)) [
  | inl e ↦ rw (e, States.schedule_retry) tt
  | inr (l, e) ↦
      rw (e, States.schedule_retry)
        (ground
          (arith, Extends-insert s.job_states id l (States.scheduled_state rt at (rt.clock 0)) e))
]
perform-Grows (Call.delete_job rt id) s h = elim (Option-cases (s.job_states id)) [
  | inl e ↦ rw (e, States.delete_job) tt
  | inr (l, e) ↦
      rw (e, States.delete_job)
        (ground (arith, Extends-insert s.job_states id l (States.deleted_state (rt.clock 0)) e))
]
perform-Grows c s h = ground (arith, Extends-refl s.job_states)
