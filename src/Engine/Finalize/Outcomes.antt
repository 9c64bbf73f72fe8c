-- ===== src/Engine/Finalize/Outcomes.antt =====
-- What finalizeSuccess and finalizeFailure leave of a job that is in process, over every store
-- that keeps the promises of the interface.
use gfire.Prelude.{
  ℕ, ◌+◌, ◌≡◌, refl, ap, subst, ◌∙◌, String, true, false, ◌||◌, some, [], ◌∷◌, ◌++◌, last?,
  last?-append, ◌⊎◌, ◌≢◌, ◌≤◌,
}
use gfire.Prelude.Int.{ℤ, pos, negsuc, leb_ℤ}
use gfire.Prelude.Result.{ok}
use gfire.Job.{Job, JobState, Runtime, state_processing, state_failed, state_dead, state_cancelled}
use gfire.Memory.Query.{add_time}
use gfire.Memory.States.{stamped, scheduled_state}
use gfire.Engine.Retry.{retry_delay, effective_retry_max}
use gfire.Engine.Storage.{Storage}
use gfire.Engine.Finalize.{ExecError, plain, failed_with, finalize_failure}

-- The states that a failed run adds to the history.
abbrev pub failed_state : (ℕ → Runtime) → ExecError → ℕ → JobState
failed_state rts e attempt = stamped (rts 0) (failed_with e.text attempt)

-- Which failed run is the last for a RetryMax: the tenth for 0, the n-th for n, and the first for
-- every negative number.
abbrev pub IsExhausted : ℤ → ℕ → Type 0
IsExhausted (pos n) attempt = ((n ≡ 0) × (10 ≤ attempt + 1)) ⊎ ((n ≢ 0) × (n ≤ attempt + 1))
IsExhausted (negsuc n) attempt = Unit {0}

module _ (st : Storage) (s : st.State) (id : String) (cur : JobState)
    (running : last? (st.history id s) ≡ some cur) where
  -- The law of ApplyState at a state whose name is known.
  apply_from :
      (rt : Runtime) (name : String) (new : JobState)
      → cur.name ≡ name
      → (t : st.State) × (st.apply_state rt id name new s ≡ ok t)
        × (st.history id t ≡ st.history id s ++ stamped rt new ∷ [])
  apply_from rt name new e =
      subst
        (λ n.
          (t : st.State) × (st.apply_state rt id n new s ≡ ok t)
          × (st.history id t ≡ st.history id s ++ stamped rt new ∷ []))
        e (st.apply_state_law rt id new cur s running)

module _ (st : Storage) (rts : ℕ → Runtime) (now jitter attempt : ℕ) (job : Job) (e : ExecError)
    (s : st.State) (cur : JobState) (running : last? (st.history job.id s) ≡ some cur)
    (processing : cur.name ≡ state_processing) where
  failed_first :
      (t : st.State) × (st.apply_state
          (rts 0)
          job.id
          state_processing
          (failed_with e.text attempt)
          s
        ≡ ok t)
      × (st.history job.id t ≡ st.history job.id s ++ failed_state rts e attempt ∷ [])
      × (last? (st.history job.id t) ≡ some (failed_state rts e attempt))
  failed_first =
      let (t, done, new) =
        apply_from st s job.id cur running (rts 0) state_processing (failed_with e.text attempt)
          processing in
      (t, done, new, ap last? new ∙ last?-append (st.history job.id s) (failed_state rts e attempt))

  -- A run of a job in process that was cancelled or timed out adds the one state Cancelled to its
  -- history.
  pub finalize_failure_cancelled :
      (e.is_canceled || e.is_deadline_exceeded) ≡ true
      → (t : st.State) × (finalize_failure st rts now jitter job attempt e s
          ≡ (ok state_cancelled, t))
        × (st.history job.id t
            ≡ st.history job.id s ++ stamped (rts 0) (plain state_cancelled e.text) ∷ [])
  unfolding finalize_failure
  finalize_failure_cancelled h =
      let (t, done, new) =
        apply_from st s job.id cur running (rts 0) state_processing (plain state_cancelled e.text)
          processing in
      (t, rw (h, done) refl, new)

  -- A failed run of a job in process that was the last allowed one adds the states Failed and
  -- then Dead.
  pub finalize_failure_dead :
      (e.is_canceled || e.is_deadline_exceeded) ≡ false
      → leb_ℤ (effective_retry_max job.retry_max) (pos (attempt + 1)) ≡ true
      → (t : st.State) × (finalize_failure st rts now jitter job attempt e s ≡ (ok state_dead, t))
        × (st.history job.id t
            ≡ (st.history job.id s ++ failed_state rts e attempt ∷ [])
              ++ stamped (rts 1) (plain state_dead "retry exhausted") ∷ [])
  unfolding finalize_failure
  finalize_failure_dead h m =
      let (t, done, new, last) = failed_first in
      let (u, done', new') =
        apply_from st t job.id (failed_state rts e attempt) last (rts 1) state_failed
          (plain state_dead "retry exhausted") refl in
      (
        u,
        rw (h, done, m, done') refl,
        new' ∙ ap (λ l. l ++ stamped (rts 1) (plain state_dead "retry exhausted") ∷ []) new,
      )

  -- A failed run of a job in process that was not the last allowed one adds the states Failed and
  -- then Scheduled, and the job is due after the retry delay of this attempt.
  pub finalize_failure_retried :
      (e.is_canceled || e.is_deadline_exceeded) ≡ false
      → leb_ℤ (effective_retry_max job.retry_max) (pos (attempt + 1)) ≡ false
      → let at = add_time now (retry_delay (pos attempt) jitter) in
        (t : st.State) × (finalize_failure st rts now jitter job attempt e s ≡ (ok "", t))
        × (st.history job.id t
            ≡ (st.history job.id s ++ failed_state rts e attempt ∷ [])
              ++ scheduled_state (rts 1) at ((rts 1).clock 0) ∷ [])
        × (st.due job.id t ≡ some at)
  unfolding finalize_failure
  finalize_failure_retried h m =
      let (t, done, new, last) = failed_first in
      let at = add_time now (retry_delay (pos attempt) jitter) in
      let (u, done', new', due) =
        st.schedule_retry_law (rts 1) job.id at (failed_state rts e attempt) t last refl in
      (
        u,
        rw (h, done, m, done') refl,
        new' ∙ ap (λ l. l ++ scheduled_state (rts 1) at ((rts 1).clock 0) ∷ []) new,
        due,
      )
