-- ===== src/Redis/Query.antt =====
-- internal/storage/redis/jobs.go: the reads of jobs and queues.
use gfire.Prelude.{
  ℕ, suc, ◌+◌, String, Bool, true, false, not, ◌&&◌, Option, none, some, List, [], ◌∷◌, ◌++◌, ◌==◌,
  if◌then◌else◌, take, drop, length,
}
use gfire.Prelude.Int.{ℤ, pos, pos_part, leb_ℤ}
use gfire.Prelude.Result.{Result, Error, ok, err, fault, err_not_found, err_malformed}
use gfire.Job.{
  JobState, JobWithStates, state_enqueued, state_processing, state_succeeded, state_failed,
  state_scheduled, state_deleted, current_state,
}
use gfire.Redis.{Redis, World, ask, after}
use gfire.Redis.Keys.{job_key, job_states_key, queue_key, state_index_key, queues_index_key}
use gfire.Redis.Codec.{Codec, job_from_hash}

abbrev is_not_found : Error → Bool
is_not_found err_not_found = true
is_not_found _ = false

module _ (r : Redis) (c : Codec) where
  open r use {Db, view, exists, smembers, brpop}

  -- loadStates
  abbrev pub decode_all : List String → Option (List JobState)
  decode_all [] = some []
  decode_all (raw ∷ raws) = elim (c.unmarshal_state raw) [
    | none ↦ none
    | some st ↦ elim (decode_all raws) [ none ↦ none | some sts ↦ some (st ∷ sts) ]
  ]

  -- Storage.GetJob, from its round trip `i` on
  unfoldable pub get_job : World Db → ℕ → String → Db → Result JobWithStates × Db
  unfolding job_from_hash
  get_job w i id d = ask r w i d (λ d1.
      if exists (job_key id) d1
      then elim (job_from_hash c ((view d1).hashes (job_key id))) [
        | none ↦ (err err_malformed, d1)
        | some (job, state, at) ↦ ask r w (i + 1) d1 (λ d2.
            elim (decode_all ((view d2).lists (job_states_key id))) [
              | none ↦ (err err_malformed, d2)
              | some states ↦ (ok (record { job = job; states = states }), d2)
            ])
      ]
      else (err err_not_found, d1))

  -- Storage.GetQueueLength
  unfoldable pub get_queue_length : World Db → String → Db → Result ℕ × Db
  get_queue_length w queue d =
      ask r w 0 d (λ d1. (ok (length ((view d1).lists (queue_key queue))), d1))

  -- Storage.GetQueues
  unfoldable pub get_queues : World Db → Db → Result (List String) × Db
  get_queues w d = ask r w 0 d (λ d1. (ok (smembers queues_index_key d1), d1))

  -- The ids of GetJobsByState without a state: the members of six of the indexes.
  unfoldable pub collect_ids : World Db → ℕ → List String → Db → Result (List String) × Db
  collect_ids w i [] d = (ok [], d)
  collect_ids w i (st ∷ sts) d = ask r w i d (λ d1.
      after r (collect_ids w (suc i) sts d1)
        (λ ids d2. (ok (smembers (state_index_key st) d1 ++ ids), d2)))

  abbrev pub keep : String → JobWithStates → List JobWithStates → List JobWithStates
  keep state jw jws = if not (state == "") && not (current_state jw == state) then jws else jw ∷ jws

  abbrev pub unless_missing :
      {A B : Type 0}
      → Result A × Db
      → (Db → Result B × Db)
      → (A → Db → Result B × Db)
      → Result B × Db
  unless_missing (ok a, d) skip next = next a d
  unless_missing (err e, d) skip next = if is_not_found e then skip d else (err e, d)
  unless_missing (fault, d) skip next = (fault, d)

  -- The last loop of GetJobsByState: a job that is gone or in another state is left out.
  unfoldable pub load_jobs :
      World Db → ℕ → String → List String → Db → Result (List JobWithStates) × Db
  unfolding get_job
  load_jobs w i state [] d = (ok [], d)
  load_jobs w i state (id ∷ ids) d =
      unless_missing (get_job w i id d) (load_jobs w (i + 1) state ids) (λ jw d1.
        after r (load_jobs w (i + 2) state ids d1) (λ jws d2. (ok (keep state jw jws), d2)))

  abbrev limited : ℤ → ℤ
  limited limit = if leb_ℤ limit (pos 0) then pos 100 else limit

  abbrev pub every_state : List String
  every_state =
      state_enqueued ∷ state_processing ∷ state_scheduled ∷ state_succeeded ∷ state_failed
      ∷ state_deleted ∷ []

  -- Storage.GetJobsByState; the handlers give no negative offset, which would be a panic.
  unfoldable pub get_jobs_by_state :
      World Db → String → ℕ → ℤ → Db → Result (List JobWithStates) × Db
  unfolding collect_ids load_jobs
  get_jobs_by_state w state offset limit d =
      let states = if state == "" then every_state else state ∷ [] in
      after r (collect_ids w 0 states d) (λ ids d1.
        load_jobs w (length states) state (take (pos_part (limited limit)) (drop offset ids)) d1)
