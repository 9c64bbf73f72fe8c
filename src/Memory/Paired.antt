-- ===== src/Memory/Paired.antt =====
-- memory.go: jobs and histories have the same ids, which Requeue relies on.
use gfire.Prelude.{
  ℕ, ◌≡◌, refl, sym, ap, ◌∙◌, String, true, false, none, some, List, [], ◌∷◌, ◌++◌, ◌==◌, inl, inr,
  last?, Bool-cases, Option-cases, eq_iff,
}
use mathlib.Core.Bool.{false≢true}
use gfire.Prelude.Dict.{insert, contains, is_some}
use gfire.Prelude.Result.{ok, err, err_not_found, err_terminal_state}
use gfire.Job.{JobState, Runtime, irreversible_states, state_failed, last_name}
use gfire.Memory.{Store, read_list}
use gfire.Memory.Queues.{requeue, requeued_state, put_back}
use gfire.Memory.States.{
  apply_state, delete_job, schedule_retry, current_or_enqueued, record_state, mark_deleted,
  add_retry,
}
use gfire.Memory.Moves.{Transition, apply, delete, retry, on_memory, next}
use gfire.Memory.Moves

abbrev pub Paired : Store → Type 0
Paired s = (id : String) → contains id s.jobs ≡ contains id s.job_states

Paired-insert :
    (s s' : Store) (id : String) (history : List JobState)
    → Paired s
    → contains id s.job_states ≡ true
    → s'.jobs ≡ s.jobs
    → s'.job_states ≡ insert id history s.job_states
    → Paired s'
Paired-insert s s' id history h e jobs states j = elim (Bool-cases (id == j)) [
  | inl g ↦
      rw (jobs, states, g) (h j ∙ ap (λ k. contains k s.job_states) (sym ((eq_iff id j).0 g)) ∙ e)
  | inr g ↦ rw (jobs, states, g) (h j)
]

module _ (s : Store) (h : Paired s) (rt : Runtime) (id : String) where
  pub requeue_absent :
      (reason : String) → s.job_states id ≡ none → requeue rt id reason s ≡ err err_not_found
  unfolding requeue
  requeue_absent reason e = elim (Option-cases (s.jobs id)) [
    | inl f ↦ rw (requeue, f) refl
    | inr (job, f) ↦ absurd (false≢true (sym (ap is_some e) ∙ (sym (h id) ∙ ap is_some f)))
  ]

  pub requeue_final :
      (reason : String) (states : List JobState) (st : JobState)
      → s.job_states id ≡ some states
      → last? states ≡ some st
      → irreversible_states st.name ≡ true
      → requeue rt id reason s ≡ err err_terminal_state
  unfolding requeue
  requeue_final reason states st e last f = elim (Option-cases (s.jobs id)) [
    | inl g ↦ absurd (false≢true (sym (ap is_some g) ∙ (h id ∙ ap is_some e)))
    | inr (job, g) ↦ rw (requeue, g, e, last, f) refl
  ]

  pub requeue_moves :
      (reason : String) (states : List JobState) (st : JobState)
      → s.job_states id ≡ some states
      → last? states ≡ some st
      → irreversible_states st.name ≡ false
      → (s' : Store) × (requeue rt id reason s ≡ ok s')
        × (s'.jobs ≡ s.jobs)
        × (s'.job_states
            ≡ insert id (states ++ requeued_state reason (rt.clock 0) ∷ []) s.job_states)
  unfolding requeue
  requeue_moves reason states st e last f = elim (Option-cases (s.jobs id)) [
    | inl g ↦ absurd (false≢true (sym (ap is_some g) ∙ (h id ∙ ap is_some e)))
    | inr (job, g) ↦
        (put_back rt id reason job s, rw (requeue, g, e, last, f) refl, refl, rw e refl)
  ]

module _ (s : Store) (h : Paired s) (rt : Runtime) (id : String) where
  apply_keeps :
      (expected : String) (st : JobState) → Paired (next (apply_state rt id expected st s) s)
  unfolding apply_state
  apply_keeps expected st = elim (Option-cases (s.job_states id)) [
    | inl e ↦ rw (apply_state, e) h
    | inr (states, e) ↦ elim (Bool-cases (current_or_enqueued (last? states) == expected)) [
      | inr f ↦ rw (apply_state, e, f) h
      | inl f ↦
          rw (apply_state, e, f)
            (Paired-insert s (record_state rt id expected st states s) id _ h (ap is_some e) refl
              refl)
    ]
  ]

  delete_keeps : Paired (next (delete_job rt id s) s)
  unfolding delete_job
  delete_keeps = elim (Option-cases (s.job_states id)) [
    | inl e ↦ rw (delete_job, e) h
    | inr (states, e) ↦ elim (Option-cases (last? states)) [
      | inl l ↦ rw (delete_job, e, l) h
      | inr (st, l) ↦ elim (Bool-cases (irreversible_states st.name)) [
        | inl f ↦ rw (delete_job, e, l, f) h
        | inr f ↦
            rw (delete_job, e, l, f)
              (Paired-insert s (mark_deleted rt id states s) id _ h (ap is_some e) refl refl)
      ]
    ]
  ]

  retry_keeps : (at : ℕ) → Paired (next (schedule_retry rt id at s) s)
  unfolding schedule_retry
  retry_keeps at = elim (Option-cases (s.job_states id)) [
    | inl e ↦ rw (schedule_retry, e) h
    | inr (states, e) ↦ elim (Option-cases (last? states)) [
      | inl l ↦ rw (schedule_retry, e, l) h
      | inr (st, l) ↦ elim (Bool-cases (st.name == state_failed)) [
        | inr f ↦ rw (schedule_retry, e, l, f) h
        | inl f ↦
            rw (schedule_retry, e, l, f)
              (Paired-insert s (add_retry rt id at states s) id _ h (ap is_some e) refl refl)
      ]
    ]
  ]

  requeue_keeps : (reason : String) → Paired (next (requeue rt id reason s) s)
  unfolding requeue
  requeue_keeps reason = elim (Option-cases (s.jobs id)) [
    | inl e ↦ rw (requeue, e) h
    | inr (job, e) ↦
        elim (Bool-cases (irreversible_states (last_name (read_list id s.job_states)))) [
          | inl f ↦ rw (requeue, e, f) h
          | inr f ↦
              rw (requeue, e, f)
                (Paired-insert s (put_back rt id reason job s) id _ h (sym (h id) ∙ ap is_some e)
                  refl refl)
        ]
  ]

-- Every transition keeps the pairing.
pub on_memory-Paired : (c : Transition) (s : Store) → Paired s → Paired (next (on_memory c s) s)
on_memory-Paired (apply rt id expected st) s h = apply_keeps s h rt id expected st
on_memory-Paired (delete rt id) s h = delete_keeps s h rt id
on_memory-Paired (retry rt id at) s h = retry_keeps s h rt id at
on_memory-Paired (Moves.requeue rt id reason) s h = requeue_keeps s h rt id reason
