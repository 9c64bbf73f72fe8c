-- ===== src/Memory/Queues.antt =====
-- The section "Queues & Job Dispatch" of memory.go, and EnqueueIdempotent: how a job enters the
-- store, is handed to a worker and is put back.
use gfire.Prelude.{
  ℕ, zero, suc, String, Bool, true, false, Option, none, some, List, [], ◌∷◌, ◌==◌, if◌then◌else◌,
}
use gfire.Prelude.Int.{ℤ, pos, negsuc}
use gfire.Prelude.Text.{◌<>◌, decimal_int}
use gfire.Prelude.Dict.{Dict, insert, erase}
use gfire.Prelude.Result.{
  Result, ok, err, fault, Error, err_not_found, err_terminal_state, err_queue_empty,
}
use gfire.Job.{
  Job, JobState, JobTicket, Runtime, state_enqueued, state_processing, irreversible_states,
  last_name,
}
use gfire.Memory.{Store, read_list, add_count, push_state, push_back, unix_nano}

abbrev is_zero : ℤ → Bool
is_zero (pos zero) = true
is_zero (pos (suc n)) = false
is_zero (negsuc n) = false

-- The defaults that Enqueue writes into the job.
unfoldable pub prepare : Runtime → Job → Job
prepare rt job = record job {
  id = if job.id == "" then rt.uuid 0 else job.id;
  created_at = rt.clock 0;
  queue = if job.queue == "" then "default" else job.queue;
  retry_max = if is_zero job.retry_max then pos 10 else job.retry_max;
}

abbrev plain_state : String → ℕ → JobState
plain_state name t = record { name = name; reason = ""; attrs = []; created_at = t }

-- The part of Enqueue under the mutex, for a prepared job.
unfoldable pub insert_job : Runtime → String → Job → Store → Store
insert_job rt queue job s = record s {
  jobs = insert job.id job s.jobs;
  job_states = insert job.id (plain_state state_enqueued (rt.clock 1) ∷ []) s.job_states;
  queue_tokens = insert job.id (unix_nano (rt.clock 2)) s.queue_tokens;
  queues = push_back queue job.id s.queues;
  counters = add_count "enqueued" (pos 1) s.counters;
  dequeue_ch = true;
}

-- Storage.Enqueue
unfoldable pub enqueue : Runtime → String → Job → Store → String × Store
unfolding prepare insert_job
enqueue rt queue job s = let job' : Job = prepare rt job in (job'.id, insert_job rt queue job' s)

abbrev pub ticket : Runtime → Job → String → JobTicket
ticket rt job id = record {
  job_id = job.id;
  token = "tok-" <> id <> "-" <> decimal_int (unix_nano (rt.clock 2));
}

abbrev pub processing_state : ℕ → JobState
processing_state t = record {
  name = state_processing;
  reason = "";
  attrs = ("server_id", "local") ∷ [];
  created_at = t;
}

abbrev pub mark_processing : Runtime → String → Store → Store
mark_processing rt id s = record s {
  processing = insert id "local" s.processing;
  progress = insert id (rt.clock 0) s.progress;
  job_states = push_state id (processing_state (rt.clock 1)) s.job_states;
  counters = add_count "dequeued" (pos 1) s.counters;
}

-- What one pass of Dequeue does once `id` is taken off its queue. `next` is the rest of the pass
-- with the mutex released, as the `continue` after the early Unlock leaves it.
abbrev take_job :
    Runtime
    → Bool
    → Option Job
    → String
    → Store
    → Result (Option JobTicket × Store)
    → Result (Option JobTicket × Store)
take_job rt held none id s next = if held then next else fault
take_job rt held (some job) id s next =
    if held then ok (some (ticket rt job id), mark_processing rt id s) else fault

-- One pass of Dequeue over the queues; `held` says whether the caller holds the mutex. To unlock a
-- mutex that is not held is a fatal error.
unfoldable pub dequeue_pass :
    Runtime → Bool → List String → Store → Result (Option JobTicket × Store)
dequeue_pass rt held [] s = if held then ok (none, s) else fault
dequeue_pass rt held (q ∷ qs) s = elim (read_list q s.queues) [
  | [] ↦ dequeue_pass rt held qs s
  | id ∷ rest ↦
      let s' : Store = record s { queues = insert q rest s.queues } in
      let next : Result (Option JobTicket × Store) = dequeue_pass rt false qs s' in
      take_job rt held (s'.jobs id) id s' next
]

-- What ends a wait of Dequeue: the context, the deadline, the channel or the ticker.
pub data Wake : Type 0 where
  done : Error → Wake
  deadline signal tick : Wake

-- A wait: what other goroutines do to the store, what ends the wait, and the next pass's readings.
pub record Wait : Type 0 where
  pub meanwhile : Store → Store
  pub wake : Wake
  pub runtime : Runtime

-- The outcome of Dequeue: a ticket, or `none` while it still waits after the given waits.
abbrev wake_up :
    Wake → Store → (Store → Result (Option JobTicket × Store)) → Result (Option JobTicket × Store)
wake_up (done e) s again = err e
wake_up deadline s again = err err_queue_empty
wake_up signal s again = again (record s { dequeue_ch = false })
wake_up tick s again = again s

after_pass :
    Result (Option JobTicket × Store)
    → (Store → Result (Option JobTicket × Store))
    → Result (Option JobTicket × Store)
after_pass (ok (some t, s)) wait = ok (some t, s)
after_pass (ok (none, s)) wait = wait s
after_pass (err e) wait = err e
after_pass fault wait = fault

-- Storage.Dequeue, over the waits that it goes through.
unfoldable pub dequeue :
    Runtime → List String → List Wait → Store → Result (Option JobTicket × Store)
unfolding dequeue_pass after_pass
dequeue rt qs [] s = dequeue_pass rt true qs s
dequeue rt qs (w ∷ ws) s =
    after_pass (dequeue_pass rt true qs s)
      (λ s'. wake_up w.wake (w.meanwhile s') (λ s''. dequeue w.runtime qs ws s''))

abbrev refuses_requeue : List JobState → Bool
refuses_requeue states = irreversible_states (last_name states)

abbrev pub requeued_state : String → ℕ → JobState
requeued_state reason t = record {
  name = state_enqueued;
  reason = reason;
  attrs = [];
  created_at = t;
}

abbrev pub put_back : Runtime → String → String → Job → Store → Store
put_back rt id reason job s = record s {
  processing = erase id s.processing;
  job_states = push_state id (requeued_state reason (rt.clock 0)) s.job_states;
  queues = push_back job.queue job.id s.queues;
  dequeue_ch = true;
}

-- Storage.Requeue
unfoldable pub requeue : Runtime → String → String → Store → Result Store
requeue rt id reason s = elim (s.jobs id) [
  | none ↦ err err_not_found
  | some job ↦
      if refuses_requeue (read_list id s.job_states)
      then err err_terminal_state
      else ok (put_back rt id reason job s)
]

abbrev pub claim_key : String → String → Dict String → Dict String
claim_key key id m = if key == "" then m else insert key id m

abbrev pub create_idempotent : Runtime → String → Job → Store → String × Bool × Store
create_idempotent rt queue job s =
    let job' : Job = prepare rt job in
    let s' : Store = insert_job rt queue job' s in
    (
      job'.id,
      true,
      record s' { idempotency = claim_key job.idempotency_key job'.id s'.idempotency },
    )

-- The job that a used key has made, else a new one.
abbrev pub reuse : Option String → Store → String × Bool × Store → String × Bool × Store
reuse (some existing) s created = (existing, false, s)
reuse none s created = created

-- Storage.EnqueueIdempotent
unfoldable pub enqueue_idempotent : Runtime → String → Job → Store → String × Bool × Store
unfolding prepare insert_job
enqueue_idempotent rt queue job s =
    if job.idempotency_key == ""
    then create_idempotent rt queue job s
    else reuse (s.idempotency job.idempotency_key) s (create_idempotent rt queue job s)
