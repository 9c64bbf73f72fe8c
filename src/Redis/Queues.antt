-- ===== src/Redis/Queues.antt =====
-- internal/storage/redis/jobs.go: Enqueue, Dequeue, Requeue and EnqueueIdempotent. An empty slice of
-- arguments stands for a nil one.
use gfire.Prelude.{
  ℕ, zero, suc, ◌+◌, String, Bool, true, false, Option, none, some, List, [], ◌∷◌, ◌==◌, get_or,
  if◌then◌else◌, is_empty, map,
}
use gfire.Prelude.Int.{ℤ, pos, negsuc}
use gfire.Prelude.Text.{◌<>◌, decimal_int}
use gfire.Prelude.Result.{Result, ok, err, err_queue_empty, err_backend}
use gfire.Job.{Job, JobState, JobTicket, Runtime, state_enqueued, state_processing}
use gfire.Memory.{unix_nano}
use gfire.Redis.{Redis, Command, World, answered, lost, apply_all, ask, send, call, after, done}
use gfire.Redis.Keys.{
  job_key, job_states_key, queue_key, state_index_key, processing_key, queues_index_key,
  counter_key, idempotency_key_of,
}
use gfire.Redis.Codec.{Codec, job_hash_fields}
use gfire.Redis.Jobs.{plain_state, queue_of, unless_final}

abbrev pub is_zero : ℤ → Bool
is_zero (pos zero) = true
is_zero (pos (suc n)) = false
is_zero (negsuc n) = false

-- The defaults that Enqueue writes into the job.
abbrev pub prepared : Runtime → String → Job → Job
prepared rt queue job = record job {
  id = if job.id == "" then rt.uuid 0 else job.id;
  queue = if queue == "" then "default" else queue;
  retry_max = if is_zero job.retry_max then pos 10 else job.retry_max;
  args = if is_empty job.args then 91 ∷ 93 ∷ [] else job.args;
  created_at = rt.clock 0;
}

module _ (r : Redis) (c : Codec) where
  open r use {Db, view, exists, smembers, brpop}

  -- The pipeline of Enqueue, for a job with its defaults.
  abbrev pub enqueue_commands : Runtime → Job → List Command
  enqueue_commands rt job =
      Command.hset (job_key job.id) (job_hash_fields c job state_enqueued 0 (rt.clock 1))
      ∷ Command.rpush (job_states_key job.id)
          (c.marshal_state (plain_state state_enqueued "" (rt.clock 0)))
      ∷ Command.lpush (queue_key job.queue) job.id
      ∷ Command.sadd queues_index_key job.queue
      ∷ Command.sadd (state_index_key state_enqueued) job.id
      ∷ Command.incrby (counter_key "enqueued") (pos 1)
      ∷ []

  -- Storage.Enqueue, from its round trip `i` on. The client may repeat a broken pipeline: the round
  -- trip is the last attempt, and what earlier ones have run is part of what `w` does before it.
  unfoldable pub enqueue : World Db → ℕ → Runtime → String → Job → Db → Result String × Db
  unfolding job_hash_fields
  enqueue w i rt queue job d =
      let job' : Job = prepared rt queue job in
      send r w i (enqueue_commands rt job') d (λ d'. (ok job'.id, d'))

  abbrev pub processing_state : String → ℕ → JobState
  processing_state server t = record {
    name = state_processing;
    reason = "";
    attrs = ("server_id", server) ∷ [];
    created_at = t;
  }

  abbrev pub token : String → ℕ → String
  token id now = "tok-" <> (id <> ("-" <> decimal_int (unix_nano now)))

  abbrev pub processing_value : String → String → ℕ → String
  processing_value server id now =
      server <> ("|" <> (token id now <> ("|" <> decimal_int (unix_nano now))))

  abbrev pub finalize_commands : String → String → ℕ → List Command
  finalize_commands server id now =
      Command.hset (job_key id) (
        ("state", state_processing)
        ∷ ("progress_at", c.format now)
        ∷ ("updated_at", c.format now)
        ∷ [])
      ∷ Command.rpush (job_states_key id) (c.marshal_state (processing_state server now))
      ∷ Command.hset processing_key ((id, processing_value server id now) ∷ [])
      ∷ Command.srem (state_index_key state_enqueued) id
      ∷ Command.sadd (state_index_key state_processing) id
      ∷ Command.incrby (counter_key "dequeued") (pos 1)
      ∷ []

  -- finalizeDequeueScript; false stands for -1.
  unfoldable pub finalize_dequeue : String → String → ℕ → Db → Bool × Db
  finalize_dequeue server id now d =
      if exists (job_key id) d
      then (true, apply_all r (finalize_commands server id now) d)
      else (false, d)

  abbrev pub ticket : String → ℕ → JobTicket
  ticket id now = record { job_id = id; token = token id now }

  -- The end of an iteration of Dequeue, once BRPOP has answered.
  abbrev pub after_pop :
      World Db
      → ℕ
      → String
      → ℕ
      → Option String × Db
      → (Db → Option (Result JobTicket × Db))
      → Option (Result JobTicket × Db)
  after_pop w i server now (none, d) again = some (err err_queue_empty, d)
  after_pop w i server now (some id, d) again = elim (w.trip i) [
    | answered ↦
        let (found, d') = finalize_dequeue server id now (w.meanwhile i d) in
        if found then some (ok (ticket id now), d') else again d'
    | lost n ↦
        some (call r w i (finalize_dequeue server id now) d (λ found. (err err_backend, found.1)))
  ]

  -- The loop of Dequeue, with fuel for its turns.
  unfoldable pub dequeue_loop :
      ℕ → World Db → ℕ → Runtime → String → List String → Db → Option (Result JobTicket × Db)
  unfolding finalize_dequeue
  dequeue_loop zero w i rt server keys d = none
  dequeue_loop (suc fuel) w i rt server keys d =
      let again = dequeue_loop fuel w (i + 2) rt server keys in
      elim (w.trip i) [
        | answered ↦ after_pop w (i + 1) server (rt.clock i) (brpop keys (w.meanwhile i d)) again
        | lost n ↦ some (call r w i (brpop keys) d (λ popped. (err err_backend, popped.1)))
      ]

  -- Storage.Dequeue
  unfoldable pub dequeue :
      ℕ → World Db → Runtime → String → List String → Db → Option (Result JobTicket × Db)
  unfolding dequeue_loop
  dequeue fuel w rt server [] d = some (err err_queue_empty, d)
  dequeue fuel w rt server (q ∷ queues) d =
      dequeue_loop fuel w 0 rt server (map queue_key (q ∷ queues)) d

  abbrev pub requeue_commands : Runtime → String → String → String → List Command
  requeue_commands rt id reason queue =
      Command.hset (job_key id)
        (("state", state_enqueued) ∷ ("updated_at", c.format (rt.clock 0)) ∷ [])
      ∷ Command.hdel (job_key id) "progress_at"
      ∷ Command.rpush (job_states_key id)
          (c.marshal_state (plain_state state_enqueued reason (rt.clock 0)))
      ∷ Command.lpush (queue_key queue) id
      ∷ Command.hdel processing_key id
      ∷ Command.srem (state_index_key state_processing) id
      ∷ Command.sadd (state_index_key state_enqueued) id
      ∷ []

  -- Storage.Requeue
  unfoldable pub requeue : World Db → Runtime → String → String → Db → Result (Unit {0}) × Db
  requeue w rt id reason d = unless_final r w id d (λ d2.
      ask r w 2 d2
        (λ d3. send r w 3 (requeue_commands rt id reason (queue_of r c id d3)) d3 (done r)))

  -- EnqueueIdempotent once no job is found under the key; the answer to SET is not looked at.
  abbrev pub enqueue_new : World Db → Runtime → String → Job → Db → Result (String × Bool) × Db
  enqueue_new w rt queue job d = after r (enqueue w 1 rt queue job d) (λ id d1. (
    ok (id, true),
    if job.idempotency_key == ""
        then d1
        else (send r w 2 (Command.set (idempotency_key_of job.idempotency_key) id ∷ []) d1
            (done r)).1,
  ))

  -- What GET finds under the key; an error of the connection is taken for no job.
  abbrev pub existing : World Db → String → Db → String × Db
  existing w key d =
      let d' = w.meanwhile 0 d in
      elim (w.trip 0) [
        | answered ↦ (get_or ((view d').texts (idempotency_key_of key)) "", d')
        | lost n ↦ ("", d')
      ]

  -- Storage.EnqueueIdempotent
  unfoldable pub enqueue_idempotent :
      World Db → Runtime → String → Job → Db → Result (String × Bool) × Db
  unfolding enqueue
  enqueue_idempotent w rt queue job d =
      if job.idempotency_key == ""
      then enqueue_new w rt queue job d
      else let (id, d') = existing w job.idempotency_key d in
        if id == "" then enqueue_new w rt queue job d' else (ok (id, false), d')
