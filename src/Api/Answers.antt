-- ===== src/Api/Answers.antt =====
-- What the handlers of internal/api/handlers_jobs.go answer, and what they leave in the store.
use gfire.Prelude.{
  ℕ, suc, ◌+◌, ◌≡◌, ◌≢◌, refl, ap, String, Bool, false, Option, none, some, List, [], ◌∷◌, ◌==◌,
  if◌then◌else◌, length, length-append, arith, Bool-cases, inl, inr, eqb,
}
use gfire.Prelude.Int.{ℤ, pos}
use gfire.Prelude.Text.{◌<>◌}
use gfire.Prelude.Dict.{eq_self, ne_false}
use gfire.Job.{Job, Runtime}
use gfire.Memory.{Store}
use gfire.Memory.Scheduled.{add_scheduled}
use gfire.Memory.Idempotency.{enqueue_idempotent_twice}
use gfire.Api.{
  decoded, EnqueueRequest, ScheduleRequest, Accepted, Rejected, Body, requested_job, timeout_of,
  put_job,
}
use gfire.Api.Jobs.{handle_enqueue, handle_schedule, created_reply}
use gfire.Api.Batch.{Progress, key_at, enqueue_at, batch_one, batch_loop, handle_batch_enqueue}

-- The number of requests that the loop has decided.
abbrev decided : Progress → ℕ
decided p = length p.accepted + length p.rejected

enqueue_at-decided :
    (rt : Runtime) (header : String) (i : ℕ) (req : EnqueueRequest) (o : Option ℤ) (p : Progress)
    → decided (enqueue_at rt header i req o p) ≡ suc (decided p)
enqueue_at-decided rt header i req none p = omega (
  arith,
  length-append p.rejected
      (record { name = req.name; reason = "invalid timeout: " <> req.timeout; index = i } ∷ []),
)
enqueue_at-decided rt header i req (some timeout) p =
    let (id, t) = put_job rt (requested_job req timeout (key_at header i)) p.store in
    omega (
      arith,
      length-append p.accepted (
          record { job_id = id; name = req.name; queue = (requested_job req (pos 0) "").queue }
          ∷ []),
    )

module _ (parse_duration : String → Option ℤ) (rts : ℕ → Runtime) (header : String) where
  batch_one-decided :
      (i : ℕ) (req : EnqueueRequest) (p : Progress)
      → decided (batch_one parse_duration rts header i req p) ≡ suc (decided p)
  unfolding batch_one
  batch_one-decided i req p = elim (Bool-cases (req.name == "")) [
    | inl e ↦
        rw (e, batch_one)
          (omega (
            arith,
            length-append p.rejected
                (record { name = req.name; reason = "name is required"; index = i } ∷ []),
          ))
    | inr e ↦
        rw (e, batch_one)
          (enqueue_at-decided (rts i) header i req (timeout_of parse_duration req.timeout) p)
  ]

  batch_loop-decided :
      (i : ℕ) (reqs : List EnqueueRequest) (p : Progress)
      → decided (batch_loop parse_duration rts header i reqs p) ≡ decided p + length reqs
  unfolding batch_loop
  batch_loop-decided i [] p = omega arith
  batch_loop-decided i (req ∷ reqs) p = omega (
    arith,
    batch_loop-decided (suc i) reqs (batch_one parse_duration rts header i req p),
    batch_one-decided i req p,
  )

-- A batch that is not empty is answered with its size, and with as many jobs accepted or rejected
-- as it has.
pub handle_batch_enqueue_decides :
    (parse_duration : String → Option ℤ) (rts : ℕ → Runtime) (header : String)
    (req : EnqueueRequest) (reqs : List EnqueueRequest) (s : Store)
    → (accepted : List Accepted) × (rejected : List Rejected) × ((handle_batch_enqueue
          parse_duration rts header
          (decoded (req ∷ reqs))
          s).0.body
        ≡ Body.batch accepted rejected (length (req ∷ reqs)))
      × (length accepted + length rejected ≡ length (req ∷ reqs))
unfolding handle_batch_enqueue
handle_batch_enqueue_decides parse_duration rts header req reqs s =
    let start : Progress = record { accepted = []; rejected = []; store = s } in
    let p = batch_loop parse_duration rts header 0 (req ∷ reqs) start in
    (
      p.accepted,
      p.rejected,
      refl,
      omega (arith, batch_loop-decided parse_duration rts header 0 (req ∷ reqs) start),
    )

-- A job that is scheduled over HTTP has no timeout of its own, whatever timeout its request asks for.
pub handle_schedule_timeout :
    (rt : Runtime) (req : ScheduleRequest) (s : Store)
    → (req.request.name == "") ≡ false
    → eqb req.enqueue_at 0 ≡ false
    → (id : String) × (job : Job) × (t : Store) × (handle_schedule rt (decoded req) s
        ≡ (record { code = 201; body = Body.scheduled id req.enqueue_at }, t))
      × (t.jobs id ≡ some job)
      × (job.name ≡ req.request.name)
      × (t.scheduled id ≡ some req.enqueue_at)
      × (job.timeout ≡ pos 0)
unfolding handle_schedule add_scheduled
handle_schedule_timeout rt req s named dated = (
  rt.uuid 0,
  record (requested_job req.request (pos 0) "") {
    id = rt.uuid 0;
    created_at = rt.clock 0;
    queue =
        if (requested_job req.request (pos 0) "").queue == ""
        then "default"
        else (requested_job req.request (pos 0) "").queue;
  },
  (add_scheduled rt req.enqueue_at (requested_job req.request (pos 0) "") s).1,
  rw (named, dated) refl,
  rw (eq_self (rt.uuid 0)) refl,
  refl,
  rw (eq_self (rt.uuid 0)) refl,
  refl,
)

put_job_twice :
    (rt rt' : Runtime) (j : Job) (s : Store)
    → j.idempotency_key ≢ ""
    → let (id, t) = put_job rt j s in put_job rt' j t ≡ (id, t)
unfolding put_job
put_job_twice rt rt' j s given = rw (ne_false j.idempotency_key "" given) (
    ap (λ (r : String × Bool × Store). (r.0, r.2))
      (enqueue_idempotent_twice rt rt' j.queue j.queue j j s given refl))

-- A request with an Idempotency-Key, a name and a timeout that is empty or parses is answered in the
-- same way when it is sent again, with the first job's id, and then changes nothing.
pub handle_enqueue_twice :
    (parse_duration : String → Option ℤ) (rt rt' : Runtime) (key : String) (req : EnqueueRequest)
    (timeout : ℤ) (s : Store)
    → key ≢ ""
    → (req.name == "") ≡ false
    → timeout_of parse_duration req.timeout ≡ some timeout
    → let (reply, t) = handle_enqueue parse_duration rt key (decoded req) s in
      handle_enqueue parse_duration rt' key (decoded req) t ≡ (reply, t)
unfolding handle_enqueue
handle_enqueue_twice parse_duration rt rt' key req timeout s given named parsed =
    let j : Job = requested_job req timeout key in
    rw (named, parsed) (ap (created_reply j.queue) (put_job_twice rt rt' j s given))
