-- ===== src/Engine/Worker.antt =====
-- internal/engine/worker.go, processTicket, and internal/engine/continuations.go: what a worker does
-- with a ticket, and the child jobs that the end of a job starts.
pub mod Bookkeeping
pub mod Children
use gfire.Prelude.{
  ℕ, suc, ◌+◌, ◌≡◌, String, Bool, true, false, ◌||◌, Option, none, some, List, [], ◌∷◌, ◌++◌, ◌==◌,
  if◌then◌else◌, is_empty,
}
use gfire.Prelude.Int.{ℤ, pos}
use gfire.Prelude.Dict.{Dict}
use gfire.Prelude.Result.{Result, ok, err, fault, ◌>>=◌}
use gfire.Job.{
  Job, JobState, JobWithStates, JobTicket, ContinuationEntry, Runtime, state_succeeded,
  state_failed, state_dead, condition_on_succeeded, condition_on_failed, condition_on_any,
}
use gfire.Middleware.{attempt_count}
use gfire.Engine.Limits.{inc_active, dec_active, register_cancel, unregister_cancel}
use gfire.Engine.Storage.{Storage}
use gfire.Engine.Finalize.{ExecError, finalize_success, finalize_failure}

-- continuationMatches
unfoldable pub continuation_matches : String → String → Bool
continuation_matches terminal condition =
    if condition == condition_on_succeeded
    then terminal == state_succeeded
    else if condition == condition_on_failed
    then terminal == state_failed || terminal == state_dead
    else condition == condition_on_any

-- encoding/json, as far as the engine uses it: values, objects by their fields, and texts.
pub record Json : Type 1 where
  pub Value : Type 0
  pub unmarshal : List ℕ → Option Value
  pub unmarshal_object : List ℕ → Option (List (String × Value))
  pub marshal_object : List (String × Value) → Option (List ℕ)

module _ (json : Json) where
  open json use {Value, unmarshal, unmarshal_object, marshal_object}

  abbrev fields_or_none : Option (List (String × Value)) → List (String × Value)
  fields_or_none none = []
  fields_or_none (some fields) = fields

  -- base[key] = value
  set_field : String → Value → List (String × Value) → List (String × Value)
  set_field key value [] = (key, value) ∷ []
  set_field key value ((k, v) ∷ fields) =
      if k == key then (key, value) ∷ fields else (k, v) ∷ set_field key value fields

  abbrev with_parent : Option Value → List (String × Value) → List (String × Value)
  with_parent none base = base
  with_parent (some result) base = set_field "_parent_result" result base

  abbrev or_child : Option (List ℕ) → List ℕ → List ℕ
  or_child none child_args = child_args
  or_child (some out) child_args = out

  -- mergeContinuationArgs
  unfoldable pub merge_continuation_args : List ℕ → List ℕ → List ℕ
  unfolding set_field
  merge_continuation_args parent_result child_args =
      if is_empty parent_result
      then child_args
      else or_child
          (marshal_object (
            with_parent (unmarshal parent_result)
              (if is_empty child_args then [] else fields_or_none (unmarshal_object child_args))))
          child_args

abbrev pub queue_or_default : String → String
queue_or_default queue = if queue == "" then "default" else queue

-- The child job of an entry; the fields that Enqueue fills in are zero.
abbrev pub child_job : (json : Json) → List ℕ → ContinuationEntry → Job
child_job json parent_result entry = record {
  id = "";
  name = entry.child_name;
  args = merge_continuation_args json parent_result entry.child_args;
  queue = queue_or_default entry.child_queue;
  retry_max = pos 0;
  timeout = pos 0;
  idempotency_key = "";
  created_at = 0;
  result = [];
}

module _ (st : Storage) (json : Json) where
  open st use {State, get_job, get_continuations, enqueue}

  -- An error of Enqueue is logged and the loop goes on.
  abbrev pub logged : Result (String × State) → State → (State → Result State) → Result State
  logged (ok (id, t)) s next = next t
  logged (err e) s next = next s
  logged fault s next = fault

  -- The loop of fireContinuations.
  unfoldable pub fire_entries :
      (ℕ → Runtime) → ℕ → List ℕ → String → List ContinuationEntry → State → Result State
  fire_entries rts i parent_result terminal [] s = ok s
  fire_entries rts i parent_result terminal (entry ∷ entries) s =
      elim (continuation_matches terminal entry.condition) [
        | false ↦ fire_entries rts (suc i) parent_result terminal entries s
        | true ↦
            logged
              (enqueue (rts i) (queue_or_default entry.child_queue)
                (child_job json parent_result entry) s)
              s (λ t. fire_entries rts (suc i) parent_result terminal entries t)
      ]

  abbrev pub with_entries :
      Result (List ContinuationEntry)
      → State
      → (List ContinuationEntry → Result State)
      → Result State
  with_entries (ok []) s next = ok s
  with_entries (ok (entry ∷ entries)) s next = next (entry ∷ entries)
  with_entries (err e) s next = ok s
  with_entries fault s next = fault

  abbrev pub with_job : Result JobWithStates → State → (JobWithStates → Result State) → Result State
  with_job (ok jw) s next = next jw
  with_job (err e) s next = ok s
  with_job fault s next = fault

  -- fireContinuations
  unfoldable pub fire_continuations : (ℕ → Runtime) → String → String → State → Result State
  unfolding fire_entries
  fire_continuations rts parent terminal s = with_entries (get_continuations parent s) s (λ entries.
      with_job (get_job parent s) s (λ jw. fire_entries rts 0 jw.job.result terminal entries s))

-- The jobs of this engine that run: their number in each queue, and their cancel functions.
pub record InFlight : Type 0 where
  pub active : Dict ℕ
  pub cancels : Dict (Unit {0})

-- The two values of Pipeline.Execute.
pub data RunResult : Type 0 where
  success : List ℕ → RunResult
  failure : ExecError → RunResult

-- What a run takes from outside: what the handler and the other goroutines do to the store, the
-- result of the pipeline, and the environments of the calls that follow.
pub record RunWorld (State : Type 0) : Type 0 where
  pub meanwhile : Job → ℕ → State → State
  pub outcome : Job → ℕ → State → RunResult
  pub runtimes : ℕ → Runtime
  pub now : ℕ
  pub jitter : ℕ
  pub child_runtimes : ℕ → Runtime

module _ (st : Storage) (json : Json) (w : RunWorld st.State) where
  open st use {State, get_job}

  abbrev pub finalize : Job → ℕ → RunResult → State → Result String × State
  finalize job attempt (success result) s = finalize_success st (w.runtimes 0) job.id result s
  finalize job attempt (failure e) s = finalize_failure st w.runtimes w.now w.jitter job attempt e s

  abbrev pub continue : String → Result String × State → Result State
  continue id (ok terminal, s) =
      if terminal == "" then ok s else fire_continuations st json w.child_runtimes id terminal s
  continue id (err e, s) = ok s
  continue id (fault, s) = fault

  abbrev pub run_job : Job → ℕ → State → Result State
  run_job job attempt s =
      let s' = w.meanwhile job attempt s in
      continue job.id (finalize job attempt (w.outcome job attempt s) s')

  -- The deferred calls that end processTicket.
  abbrev pub release_job : Job → InFlight → InFlight
  release_job job f = record {
    active = dec_active job.queue f.active;
    cancels = unregister_cancel job.id f.cancels;
  }

  abbrev pub start_job : Job → InFlight → InFlight
  start_job job f = record {
    active = inc_active job.queue f.active;
    cancels = register_cancel job.id tt f.cancels;
  }

  abbrev pub process : Result JobWithStates → State → InFlight → Result State × InFlight
  process (ok jw) s f =
      (run_job jw.job (attempt_count jw.states) s, release_job jw.job (start_job jw.job f))
  process (err e) s f = (ok s, f)
  process fault s f = (fault, f)

  -- processTicket
  unfoldable pub process_ticket : JobTicket → State → InFlight → Result State × InFlight
  process_ticket ticket s f = process (get_job ticket.job_id s) s f
