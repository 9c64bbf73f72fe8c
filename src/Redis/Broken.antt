-- ===== src/Redis/Broken.antt =====
-- internal/storage/redis/jobs.go: Enqueue when the connection breaks.
use gfire.Prelude.{
  ℕ, zero, suc, ◌≡◌, ◌⊎◌, refl, sym, subst, String, some, [], ◌∷◌, ◌++◌, inl, inr, take,
}
use gfire.Prelude.Int.{ℤ, pos}
use gfire.Prelude.Dict.{eq_self}
use gfire.Prelude.Result.{Result, ok, err, err_backend}
use gfire.Job.{Job, Runtime, state_enqueued}
use gfire.Redis.{Redis, Command, World, View, set_fields, apply_all}
use gfire.Redis.Keys.{
  job_key, job_states_key, queue_key, state_index_key, queues_index_key, counter_key,
}
use gfire.Redis.Codec.{Codec, job_hash_fields}
use gfire.Redis.Jobs.{plain_state}
use gfire.Redis.Queues.{prepared, enqueue, enqueue_commands}
use gfire.Redis.Apart.{job_states_key-queue_key, queue_key-job_states_key}
use gfire.Redis.Laws.{effects, view-apply_all, Trip-cases, send_answered, send_lost}
use gfire.Redis.RoundTrip.{extras-other}

-- The last three commands of the pipeline leave lists and hashes alone.
indexes :
    (n : ℕ) (k1 k2 k3 x1 x2 : String) (z : ℤ) (v : View)
    → ((effects
          (take n (Command.sadd k1 x1 ∷ Command.sadd k2 x2 ∷ Command.incrby k3 z ∷ []))
          v).lists
        ≡ v.lists)
      × ((effects
            (take n (Command.sadd k1 x1 ∷ Command.sadd k2 x2 ∷ Command.incrby k3 z ∷ []))
            v).hashes
          ≡ v.hashes)
indexes zero k1 k2 k3 x1 x2 z v = (refl, refl)
indexes (suc zero) k1 k2 k3 x1 x2 z v = (refl, refl)
indexes (suc (suc zero)) k1 k2 k3 x1 x2 z v = (refl, refl)
indexes (suc (suc (suc zero))) k1 k2 k3 x1 x2 z v = (refl, refl)
indexes (suc (suc (suc (suc n)))) k1 k2 k3 x1 x2 z v = (refl, refl)

module _ (r : Redis) (c : Codec) (rt : Runtime) (job : Job) where
  -- The job is in front of its queue, its hash says that it is enqueued, and its history has the state.
  abbrev pub IsQueued : View → View → Type 0
  IsQueued before after =
      (after.lists (queue_key job.queue) ≡ job.id ∷ before.lists (queue_key job.queue))
      × (after.hashes (job_key job.id) "state" ≡ some state_enqueued)
      × (after.lists (job_states_key job.id)
          ≡ before.lists (job_states_key job.id)
            ++ c.marshal_state (plain_state state_enqueued "" (rt.clock 0)) ∷ [])

  -- The queue is as it was.
  abbrev pub IsUnqueued : View → View → Type 0
  IsUnqueued before after = after.lists (queue_key job.queue) ≡ before.lists (queue_key job.queue)

  three : (v : View) → IsQueued v (effects (take 3 (enqueue_commands r c rt job)) v)
  unfolding job_hash_fields
  three v = (
    rw (eq_self (queue_key job.queue), job_states_key-queue_key job.id job.queue) refl,
    rw (eq_self (job_key job.id)) (
        extras-other c 0 job.result
          (set_fields (take 9 (job_hash_fields c job state_enqueued 0 (rt.clock 1)))
            (v.hashes (job_key job.id)))
          "state" refl refl),
    rw (queue_key-job_states_key job.queue job.id, eq_self (job_states_key job.id)) refl,
  )

  pub queued :
      (n : ℕ) (v : View)
      → IsQueued v (effects (take (suc (suc (suc n))) (enqueue_commands r c rt job)) v)
  queued n v =
      let v3 = effects (take 3 (enqueue_commands r c rt job)) v in
      let same =
        indexes n queues_index_key (state_index_key state_enqueued) (counter_key "enqueued")
          job.queue job.id (pos 1) v3 in
      rw (same.0, same.1) (three v)

  prefix :
      (n : ℕ) (v : View)
      → IsUnqueued v (effects (take n (enqueue_commands r c rt job)) v)
        ⊎ IsQueued v (effects (take n (enqueue_commands r c rt job)) v)
  prefix zero v = inl refl
  prefix (suc zero) v = inl refl
  prefix (suc (suc zero)) v = inl (rw (job_states_key-queue_key job.id job.queue) refl)
  prefix (suc (suc (suc n))) v = inr (queued n v)

module _ (r : Redis) (c : Codec) (w : World r.Db) (i : ℕ) (rt : Runtime) (queue : String)
    (job : Job) (d : r.Db) where
  abbrev job' : Job
  job' = prepared rt queue job

  abbrev IsSafe : Result String × r.Db → Type 0
  IsSafe o =
      (o.0 ≡ err err_backend) × IsUnqueued r c rt job' (r.view (w.meanwhile i d)) (r.view o.1)
      ⊎ IsQueued r c rt job' (r.view (w.meanwhile i d)) (r.view o.1)

  broken :
      (n : ℕ)
      → IsSafe
          (err err_backend, apply_all r (take n (enqueue_commands r c rt job')) (w.meanwhile i d))
  broken n = elim (prefix r c rt job' n (r.view (w.meanwhile i d))) [
    | inl h ↦
        inl
          (refl, rw (view-apply_all r (take n (enqueue_commands r c rt job')) (w.meanwhile i d)) h)
    | inr h ↦
        inr (rw (view-apply_all r (take n (enqueue_commands r c rt job')) (w.meanwhile i d)) h)
  ]

  -- Enqueue fails and leaves the queue as it was, or the job's id is put in front of its queue; then, though the
  -- connection may have broken on the way and an error is returned, the job's hash is there in the
  -- state Enqueued and its history has that state. So no id is queued without its job.
  pub enqueue_broken :
      ((enqueue r c w i rt queue job d).0 ≡ err err_backend)
        × IsUnqueued r c rt
            (prepared rt queue job)
            (r.view (w.meanwhile i d))
            (r.view (enqueue r c w i rt queue job d).1)
      ⊎ IsQueued r c rt
          (prepared rt queue job)
          (r.view (w.meanwhile i d))
          (r.view (enqueue r c w i rt queue job d).1)
  unfolding enqueue
  enqueue_broken = elim (Trip-cases (w.trip i)) [
    | inl e ↦
        subst IsSafe
          (sym (send_answered r w i (enqueue_commands r c rt job') d (λ d'. (ok job'.id, d')) e))
          (inr (
            rw (view-apply_all r (enqueue_commands r c rt job') (w.meanwhile i d))
              (queued r c rt job' 3 (r.view (w.meanwhile i d)))))
    | inr (n, e) ↦
        subst IsSafe
          (sym (send_lost r w i (enqueue_commands r c rt job') d (λ d'. (ok job'.id, d')) n e))
          (broken n)
  ]
