-- ===== src/Api/Batch.antt =====
-- handleBatchEnqueue of internal/api/handlers_jobs.go over the in-memory store.
use gfire.Prelude.{
  ℕ, suc, String, Option, none, some, List, [], ◌∷◌, ◌++◌, ◌==◌, if◌then◌else◌, is_empty, length,
}
use gfire.Prelude.Int.{ℤ, pos}
use gfire.Prelude.Text.{◌<>◌, decimal}
use gfire.Job.{Runtime}
use gfire.Memory.{Store}
use gfire.Api.{
  Decoded, decoded, malformed, EnqueueRequest, Accepted, Rejected, Body, Reply, bad_request,
  requested_job, timeout_of, put_job,
}

-- The variables of the handler's loop, with the store.
pub record Progress : Type 0 where
  pub accepted : List Accepted
  pub rejected : List Rejected
  pub store : Store

-- The key of the job at an index; without a header there is none.
abbrev pub key_at : String → ℕ → String
key_at header i = if header == "" then "" else header <> (":" <> decimal i)

abbrev pub reject : ℕ → EnqueueRequest → String → Progress → Progress
reject i req reason p = record p {
  rejected = p.rejected ++ record { name = req.name; reason = reason; index = i } ∷ [];
}

abbrev pub accept : EnqueueRequest → String × Store → Progress → Progress
accept req (id, t) p = record {
  accepted =
      p.accepted
      ++ record { job_id = id; name = req.name; queue = (requested_job req (pos 0) "").queue } ∷ [];
  rejected = p.rejected;
  store = t;
}

abbrev pub enqueue_at : Runtime → String → ℕ → EnqueueRequest → Option ℤ → Progress → Progress
enqueue_at rt header i req none p = reject i req ("invalid timeout: " <> req.timeout) p
enqueue_at rt header i req (some timeout) p =
    accept req (put_job rt (requested_job req timeout (key_at header i)) p.store) p

module _ (parse_duration : String → Option ℤ) (rts : ℕ → Runtime) (header : String) where
  -- The body of the loop; the job at an index has the environment of the index.
  unfoldable pub batch_one : ℕ → EnqueueRequest → Progress → Progress
  batch_one i req p =
      if req.name == ""
      then reject i req "name is required" p
      else enqueue_at (rts i) header i req (timeout_of parse_duration req.timeout) p

  unfoldable pub batch_loop : ℕ → List EnqueueRequest → Progress → Progress
  unfolding batch_one
  batch_loop i [] p = p
  batch_loop i (req ∷ reqs) p = batch_loop (suc i) reqs (batch_one i req p)

  abbrev pub batch_reply : ℕ → Progress → Reply × Store
  batch_reply total p = (
    record {
      code = if is_empty p.accepted then 400 else 201;
      body = Body.batch p.accepted p.rejected total;
    },
    p.store,
  )

  -- handleBatchEnqueue
  unfoldable pub handle_batch_enqueue : Decoded (List EnqueueRequest) → Store → Reply × Store
  unfolding batch_loop
  handle_batch_enqueue (malformed why) s = (bad_request why, s)
  handle_batch_enqueue (decoded []) s =
      (bad_request "jobs array is required and must not be empty", s)
  handle_batch_enqueue (decoded (req ∷ reqs)) s =
      batch_reply (length (req ∷ reqs))
        (batch_loop 0 (req ∷ reqs) (record { accepted = []; rejected = []; store = s }))
