-- ===== src/Redis/Tests/Running.antt =====
-- The store of internal/storage/redis on the server and the codec of the tests: queues and jobs.
use gfire.Prelude.{
  Bool-cases, ◌==◌, inl, inr, ◌≡◌, ◌⊎◌, refl, true, some, List, [], ◌∷◌, arith, map,
}
use gfire.Prelude.Int.{pos}
use gfire.Prelude.Dict.{empty, insert, is_some}
use gfire.Prelude.Result.{err, err_backend}
use gfire.Job.{Job, JobState, state_enqueued, state_processing, state_failed}
use gfire.Memory.{Store, new}
use gfire.Memory.Tests.{morning, noon, email, state_at}
use gfire.Redis.{World, lost, quiet, set_fields}
use gfire.Redis.Keys.{job_key, queue_key}
use gfire.Redis.Codec.{job_from_hash, job_hash_fields}
use gfire.Redis.Jobs.{plain_state}
use gfire.Redis.Queues.{enqueue, dequeue, prepared}
use gfire.Redis.Tests.Format.{plain_codec}
use gfire.Redis.Tests.Server.{log_server}
use gfire.Redis.RoundTrip.{job_from_hash-job_hash_fields}
use gfire.Redis.Broken.{enqueue_broken, IsQueued, IsUnqueued}
use gfire.Redis.Dispatch.{dequeue-Serves, dequeue_terminates, queued_total, Serves}
use gfire.Memory.Paired.{Paired}
use gfire.Memory.Moves.{Transition, apply, delete, retry, requeue, run_memory}
use gfire.Redis.Agreement.{Holds}
use gfire.Redis.Refinement.{run_redis, run_redis-run_memory}
use gfire.Redis.Queueing.{enqueue-Holds}

abbrev pub no_data : log_server.Db
unfolding log_server
no_data = []

abbrev pub after_enqueue : log_server.Db
unfolding log_server
after_enqueue = (enqueue log_server plain_codec quiet 0 morning "mail" email []).1

pub enqueued_list : (log_server.view after_enqueue).lists (queue_key "mail") ≡ "a" ∷ []
unfolding log_server enqueue
enqueued_list = refl

pub enqueued_hash : (log_server.view after_enqueue).hashes (job_key "a") "state" ≡ some "Enqueued"
unfolding log_server enqueue job_hash_fields
enqueued_hash = refl

-- A job with a timeout of a millisecond and a half.
abbrev timed : Job
timed = record email { timeout = pos 1_500_000 }

job_from_hash-job_hash_fields_example :
    job_from_hash plain_codec
      (set_fields (job_hash_fields plain_codec timed "Processing" 70 80) empty)
    ≡ some (record timed { timeout = pos 1_000_000; idempotency_key = "" }, "Processing", 70)
job_from_hash-job_hash_fields_example =
    job_from_hash-job_hash_fields plain_codec timed "Processing" 70 80 1_500_000 refl refl
      (omega arith)

-- The connection breaks after three commands of the first round trip.
abbrev pub breaking : World log_server.Db
breaking = record { trip = λ i. lost 3; meanwhile = λ i d. d }

enqueue_broken_example :
    ((enqueue log_server plain_codec breaking 0 morning "mail" email no_data).0 ≡ err err_backend)
      × IsUnqueued log_server plain_codec morning
          (prepared morning "mail" email)
          (log_server.view no_data)
          (log_server.view
            (enqueue log_server plain_codec breaking 0 morning "mail" email no_data).1)
    ⊎ IsQueued log_server plain_codec morning
        (prepared morning "mail" email)
        (log_server.view no_data)
        (log_server.view (enqueue log_server plain_codec breaking 0 morning "mail" email no_data).1)
enqueue_broken_example =
    enqueue_broken log_server plain_codec breaking 0 morning "mail" email no_data

one_queued : queued_total log_server after_enqueue (map queue_key ("mail" ∷ [])) ≡ 1
unfolding log_server enqueue
one_queued = refl

dequeue_terminates_example :
    is_some (dequeue log_server plain_codec 2 quiet noon "s" ("mail" ∷ []) after_enqueue) ≡ true
dequeue_terminates_example =
    dequeue_terminates log_server plain_codec quiet noon "s" ("mail" ∷ []) (λ i d. omega arith) 2
      after_enqueue (omega (arith, one_queued))

dequeue-Serves_example :
    Serves log_server plain_codec noon "s" "mail" "a" []
      (dequeue log_server plain_codec 1 quiet noon "s" ("mail" ∷ "other" ∷ []) after_enqueue)
dequeue-Serves_example =
    dequeue-Serves log_server plain_codec noon "s" [] ("other" ∷ []) "mail" "a" [] "state"
      "Enqueued" after_enqueue 0 tt enqueued_list enqueued_hash

-- The histories after the Enqueue, and a store with them.
abbrev history : List JobState
history = plain_state state_enqueued "" 100 ∷ []

abbrev same_history : Store
same_history = record new { jobs = insert "a" email empty; job_states = insert "a" history empty }

same_history-Holds : Holds log_server plain_codec after_enqueue same_history.job_states
unfolding log_server
same_history-Holds =
    enqueue-Holds log_server plain_codec morning "mail" email [] empty (λ id. (λ f. refl, refl))
      refl

same_history-Paired : Paired same_history
same_history-Paired id = elim (Bool-cases ("a" == id)) [ inl e ↦ rw e refl | inr e ↦ rw e refl ]

-- A run, a failure, a retry, and a transition that is refused.
abbrev steps : List Transition
steps =
    apply noon "a" state_enqueued (state_at state_processing 200)
    ∷ apply noon "a" state_processing (state_at state_failed 300)
    ∷ retry noon "a" 900
    ∷ apply noon "a" state_processing (state_at state_failed 301)
    ∷ requeue noon "a" "again"
    ∷ delete noon "a"
    ∷ requeue noon "a" "again"
    ∷ []

run_redis-run_memory_example :
    ((run_redis log_server plain_codec steps after_enqueue).0 ≡ (run_memory steps same_history).0)
    × Holds log_server plain_codec
        (run_redis log_server plain_codec steps after_enqueue).1
        (run_memory steps same_history).1.job_states
run_redis-run_memory_example =
    run_redis-run_memory log_server plain_codec steps after_enqueue same_history same_history-Holds
      same_history-Paired
