-- ===== src/Engine/Finalize.antt =====
-- internal/engine/engine.go, finalizeSuccess and finalizeFailure: how a run of a job ends.
pub mod Outcomes
use gfire.Prelude.{
  ℕ, suc, ◌+◌, ◌≡◌, ◌≢◌, ◌≤◌, ◌<◌, refl, sym, ap, subst, ◌∙◌, String, Bool, true, false, ◌||◌,
  Option, none, some, List, [], ◌∷◌, ◌++◌, last?, last?-append, if◌then◌else◌, is_empty, ltb,
  Bool-cases, inl, inr, arith, length, Option-cases,
}
use gfire.Prelude.Int.{ℤ, pos, negsuc, leb_ℤ, ltb_ℤ}
use gfire.Prelude.Text.{decimal}
use gfire.Prelude.Result.{Result, ok, err, fault, Error}
use gfire.Job.{
  Job, JobState, Runtime, state_processing, state_succeeded, state_failed, state_dead,
  state_cancelled, state_scheduled,
}
use gfire.Memory.Query.{add_time}
use gfire.Memory.States.{stamped, scheduled_state}
use gfire.Middleware.{attempt_count, attempt_count-append}
use gfire.Engine.Retry.{retry_delay, effective_retry_max}
use gfire.Engine.Storage.{Storage}

-- The error of a run: its text, and whether errors.Is finds a cancelled or expired context in it.
pub record ExecError : Type 0 where
  pub text : String
  pub is_canceled : Bool
  pub is_deadline_exceeded : Bool

abbrev pub plain : String → String → JobState
plain name reason = record { name = name; reason = reason; attrs = []; created_at = 0 }

abbrev pub failed_with : String → ℕ → JobState
failed_with reason attempt = record {
  name = state_failed;
  reason = reason;
  attrs = ("attempt", decimal (attempt + 1)) ∷ [];
  created_at = 0;
}

-- jobTimeout
unfoldable pub job_timeout : ℤ → Job → ℤ
job_timeout default_timeout job = if ltb_ℤ (pos 0) job.timeout then job.timeout else default_timeout

module _ (st : Storage) where
  open st use {State, get_job, set_job_result, apply_state, schedule_retry}

  -- The second value is the state of the store, also after an error.
  abbrev pub Ended : Type 0
  Ended = Result String × State

  -- What follows a call of the store, and the return of its error.
  abbrev pub after : Result State → State → (State → Ended) → Ended
  after (ok t) s next = next t
  after (err e) s next = (err e, s)
  after fault s next = (fault, s)

  abbrev pub apply_succeeded : Runtime → String → State → Ended
  apply_succeeded rt id s =
      after (apply_state rt id state_processing (plain state_succeeded "") s) s
        (λ t. (ok state_succeeded, t))

  -- finalizeSuccess
  unfoldable pub finalize_success : Runtime → String → List ℕ → State → Ended
  finalize_success rt id result s =
      if is_empty result
      then apply_succeeded rt id s
      else after (set_job_result id result s) s (apply_succeeded rt id)

  abbrev pub bury : Runtime → String → State → Ended
  bury rt id s =
      after (apply_state rt id state_failed (plain state_dead "retry exhausted") s) s
        (λ t. (ok state_dead, t))

  abbrev pub retry_later : Runtime → ℕ → ℕ → String → ℕ → State → Ended
  retry_later rt now jitter id attempt s =
      after (schedule_retry rt id (add_time now (retry_delay (pos attempt) jitter)) s) s
        (λ t. (ok "", t))

  -- finalizeFailure; `rts` are the environments of its calls of the store, in their order, and
  -- `now` is its own reading of the clock.
  unfoldable pub finalize_failure : (ℕ → Runtime) → ℕ → ℕ → Job → ℕ → ExecError → State → Ended
  finalize_failure rts now jitter job attempt e s =
      if e.is_canceled || e.is_deadline_exceeded
      then after (apply_state (rts 0) job.id state_processing (plain state_cancelled e.text) s) s
          (λ t. (ok state_cancelled, t))
      else after (apply_state (rts 0) job.id state_processing (failed_with e.text attempt) s) s
          (λ t.
            if leb_ℤ (effective_retry_max job.retry_max) (pos (attempt + 1))
            then bury (rts 1) job.id t
            else retry_later (rts 1) now jitter job.id attempt t)
