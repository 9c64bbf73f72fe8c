-- ===== src/Memory/Transitions.antt =====
-- The state machine of memory.go: ApplyState as a compare-and-set, retries, and the end of a job.
pub mod Compare
use gfire.Memory.Transitions.Compare.{record_state_moves, apply_state_once}
use gfire.Prelude.{
  ℕ, ◌≡◌, ◌≢◌, refl, subst, String, Bool, true, false, not, ◌&&◌, none, some, List, [], ◌∷◌, ◌++◌,
  ◌==◌, eq_iff, Option-cases, Bool-cases, inl, inr, last?, last?-append, if◌then◌else◌, le→leb, ◌≤◌,
  ◌⊎◌, sym, ◌∙◌,
}
use mathlib.Core.Bool.{false≢true}
use gfire.Prelude.Int.{ℤ, pos}
use gfire.Prelude.Text.{◌<>◌}
use gfire.Prelude.Dict.{Dict, eq_self, ne_false}
use gfire.Prelude.Result.{ok, err, ok_path, err_state_conflict, err_not_found, err_terminal_state}
use gfire.Job.{Job, JobState, Runtime, irreversible_states, state_processing}
use gfire.Memory.{Store, read_list}
use gfire.Memory.States.{
  apply_state, stamped, current_or_enqueued, mark_deleted, delete_job, deleted_state, record_state,
}
use gfire.Memory.Queues.{requeue}
use gfire.Memory.Scheduled.{
  is_due, get_due_scheduled, collect_due, promote_all, promoted_state, promote,
}

-- From `s` to `t` the history `l` of the job got the new state, no other history changed, and the
-- job left the jobs in process if it left Processing; a second compare with the same expected
-- state then fails, unless the new state has its name.
abbrev Moves :
    Runtime
    → Runtime
    → String
    → String
    → JobState
    → JobState
    → List JobState
    → Store
    → Store
    → Type 0
Moves rt rt' id expected st st' l s t =
    (t.job_states id ≡ some (l ++ stamped rt st ∷ []))
    × ((k : String) → id ≢ k → t.job_states k ≡ s.job_states k)
    × (t.processing id ≡ (
        if expected == state_processing && not (st.name == state_processing)
        then none
        else s.processing id))
    × ((st.name ≡ expected) ⊎ (apply_state rt' id expected st' t ≡ err err_state_conflict))

-- The three outcomes of ApplyState, and what each comes with.
abbrev pub Compared : Runtime → Runtime → String → String → JobState → JobState → Store → Type 0
Compared rt rt' id expected st st' s =
    ((s.job_states id ≡ none) × (apply_state rt id expected st s ≡ err err_not_found))
    ⊎ ((l : List JobState) × (s.job_states id ≡ some l)
        × (((current_or_enqueued (last? l) ≢ expected)
              × (apply_state rt id expected st s ≡ err err_state_conflict))
            ⊎ ((current_or_enqueued (last? l) ≡ expected)
                × (t : Store) × (apply_state rt id expected st s ≡ ok t)
                × Moves rt rt' id expected st st' l s t)))

-- ApplyState is a compare-and-set on the last state of a job, where an empty history counts as
-- Enqueued. A job without a history is not found. With another last state than the expected one
-- it reports a conflict. With the expected one it succeeds and adds the new state to this history
-- alone, the job is taken off the jobs in process exactly when the expected state is Processing
-- and the new one is not, and unless the new state has the expected name a second ApplyState
-- that expects the same state reports a conflict.
pub apply_state_lem :
    (rt rt' : Runtime) (id expected : String) (st st' : JobState) (s : Store)
    → Compared rt rt' id expected st st' s
unfolding apply_state
apply_state_lem rt rt' id expected st st' s = elim (Option-cases (s.job_states id)) [
  | inl e ↦ inl (e, rw (e, apply_state) refl)
  | inr (l, e) ↦ inr (
    l,
    e,
    elim (Bool-cases (current_or_enqueued (last? l) == expected)) [
      | inl f ↦
          let done : apply_state rt id expected st s ≡ ok (record_state rt id expected st l s) =
            rw (e, f, apply_state) refl in
          inr (
            (eq_iff (current_or_enqueued (last? l)) expected).0 f,
            record_state rt id expected st l s,
            done,
            (
              (record_state_moves rt id expected st l s).0,
              (record_state_moves rt id expected st l s).1,
              (record_state_moves rt id expected st l s).2,
              elim (Bool-cases (st.name == expected)) [
                | inl g ↦ inl ((eq_iff st.name expected).0 g)
                | inr g ↦ inr (
                    apply_state_once rt rt' id expected st st' s
                      (record_state rt id expected st l s) done
                      (λ p. absurd (false≢true (sym g ∙ (eq_iff st.name expected).1 p))))
              ],
            ),
          )
      | inr f ↦ inl (
        λ p. absurd (false≢true (sym f ∙ (eq_iff (current_or_enqueued (last? l)) expected).1 p)),
        rw (e, f, apply_state) refl,
      )
    ],
  )
]

pub delete_job_inv :
    (rt : Runtime) (id : String) (s t : Store)
    → delete_job rt id s ≡ ok t
    → (l : List JobState) × (s.job_states id ≡ some l) × (mark_deleted rt id l s ≡ t)
unfolding delete_job
delete_job_inv rt id s t h = elim (Option-cases (s.job_states id)) [
  | inl e ↦ cc (rw (e, delete_job) at h)
  | inr (l, e) ↦ elim (Option-cases (last? l)) [
    | inl f ↦ cc (rw (e, f, delete_job) at h)
    | inr (st, f) ↦ elim (Bool-cases (irreversible_states st.name)) [
      | inl g ↦ cc (rw (e, f, g, delete_job) at h)
      | inr g ↦ (l, e, ok_path (mark_deleted rt id l s) t (rw (e, f, g, delete_job) at h))
    ]
  ]
]

-- After DeleteJob of a stored job, a second DeleteJob and a Requeue of it are refused because of
-- its final state.
pub delete_job_final :
    (rt rt' : Runtime) (id reason : String) (job : Job) (s t : Store)
    → s.jobs id ≡ some job
    → delete_job rt id s ≡ ok t
    → (delete_job rt' id t ≡ err err_terminal_state)
      × (requeue rt' id reason t ≡ err err_terminal_state)
unfolding delete_job requeue irreversible_states
delete_job_final rt rt' id reason job s t known h =
    let (l, e, same) = delete_job_inv rt id s t h in
    let known' : t.jobs id ≡ some job = subst (λ (x : Store). x.jobs id ≡ some job) same known in
    let history : t.job_states id ≡ some (l ++ deleted_state (rt.clock 0) ∷ []) =
      subst (λ (x : Store). x.job_states id ≡ some (l ++ deleted_state (rt.clock 0) ∷ [])) same
        (rw (eq_self id) refl) in
    (
      rw (history, last?-append l (deleted_state (rt.clock 0)), delete_job) refl,
      rw (known', history, last?-append l (deleted_state (rt.clock 0)), requeue) refl,
    )

if_same {ℓ} : {A : Type ℓ} (b : Bool) (x : A) → (if b then x else x) ≡ x
if_same true x = refl
if_same false x = refl

collect_due_one :
    (now : ℕ) (batch : ℤ) (id : String) (scheduled : Dict ℕ)
    → is_due (scheduled id) now ≡ true
    → collect_due now batch (id ∷ []) scheduled [] ≡ id ∷ []
unfolding collect_due
collect_due_one now batch id scheduled h = rw h (if_same _ _)

-- A stored and scheduled job that was deleted is enqueued again by a GetDueScheduled that visits
-- this entry of the schedule alone, with a batch that is not negative, when its time has come:
-- its last state was Deleted and becomes Enqueued, and its queue ends with it.
pub deleted_job_returns :
    (rt rt' : Runtime) (id : String) (at now batch : ℕ) (job : Job) (s t : Store)
    → s.jobs id ≡ some job
    → s.scheduled id ≡ some at
    → at ≤ now
    → delete_job rt id s ≡ ok t
    → (u : Store) × (get_due_scheduled rt' (id ∷ []) now (pos batch) t
        ≡ ok (record { job_id = id; token = "sched-" <> id } ∷ [], u))
      × (last? (read_list id t.job_states) ≡ some (deleted_state (rt.clock 0)))
      × (last? (read_list id u.job_states) ≡ some (promoted_state (rt'.clock 0)))
      × (read_list job.queue u.queues ≡ read_list job.queue s.queues ++ id ∷ [])
unfolding get_due_scheduled promote_all
deleted_job_returns rt rt' id at now batch job s t known due before h =
    let (l, e, same) = delete_job_inv rt id s t h in
    let known' : t.jobs id ≡ some job = subst (λ (x : Store). x.jobs id ≡ some job) same known in
    let due' : t.scheduled id ≡ some at = rw (← same) due in
    let history : t.job_states id ≡ some (l ++ deleted_state (rt.clock 0) ∷ []) =
      subst (λ (x : Store). x.job_states id ≡ some (l ++ deleted_state (rt.clock 0) ∷ [])) same
        (rw (eq_self id) refl) in
    (
      record (promote (rt'.clock 0) id job t) { dequeue_ch = true },
      rw
          (
            collect_due_one now (pos batch) id t.scheduled (rw due' (le→leb at now before)),
            known',
            promote_all,
          )
          refl,
      rw history (last?-append l _),
      rw (eq_self id) (last?-append (read_list id t.job_states) _),
      rw (← same, eq_self job.queue) refl,
    )
