-- ===== src/Redis/Maintenance.antt =====
-- internal/storage/redis/misc.go: the removal of expired jobs.
use gfire.Prelude.{
  ℕ, suc, ◌+◌, ◌*◌, String, Bool, true, false, none, some, List, [], ◌∷◌, ◌++◌, ◌==◌, ltb,
  if◌then◌else◌, length,
}
use gfire.Prelude.Result.{Result, ok}
use gfire.Job.{state_succeeded, state_failed, state_deleted}
use gfire.Redis.{Redis, Command, World, Trip, answered, lost, ask, send, after}
use gfire.Redis.Keys.{
  job_key, job_states_key, queue_key, state_index_key, processing_key, scheduled_key,
  continuations_key,
}
use gfire.Redis.Codec.{Codec, field}

abbrev leave_queue : String → String → List Command
leave_queue queue id = if queue == "" then [] else Command.lrem (queue_key queue) id ∷ []

-- The pipeline of deleteJob.
abbrev pub forget_commands : String → String → String → List Command
forget_commands id state queue =
    (Command.del (job_key id)
      ∷ Command.del (job_states_key id)
      ∷ Command.srem (state_index_key state) id
      ∷ Command.hdel processing_key id
      ∷ Command.zrem scheduled_key id
      ∷ [])
    ++ (leave_queue queue id ++ Command.del (continuations_key id) ∷ [])

module _ (r : Redis) (c : Codec) where
  open r use {Db, view, smembers}

  abbrev heard_queue : Trip → String → String
  heard_queue answered queue = queue
  heard_queue (lost n) queue = ""

  -- deleteJob, from its round trip `i` on; an error of HGETALL leaves no queue.
  unfoldable pub forget_job : World Db → ℕ → String → String → Db → Result (Unit {0}) × Db
  forget_job w i id state d =
      let d' = w.meanwhile i d in
      send r w (i + 1)
        (forget_commands id state
          (heard_queue (w.trip i) (field c "queue" ((view d').hashes (job_key id)))))
        d' (λ d2. (ok tt, d2))

  abbrev pub is_before : ℕ → String → Bool
  is_before cutoff raw = elim (c.parse raw) [ none ↦ false | some at ↦ ltb at cutoff ]

  -- The loop of RemoveExpired over the members of an index.
  unfoldable pub remove_members : World Db → ℕ → ℕ → String → ℕ → List String → Db → Result ℕ × Db
  unfolding forget_job
  remove_members w i cutoff state deleted [] d = (ok deleted, d)
  remove_members w i cutoff state deleted (id ∷ ids) d = ask r w i d (λ d1.
      elim ((view d1).hashes (job_key id) "updated_at") [
        | none ↦ remove_members w (i + 3) cutoff state deleted ids d1
        | some raw ↦ elim (is_before cutoff raw) [
          | false ↦ remove_members w (i + 3) cutoff state deleted ids d1
          | true ↦
              after r (forget_job w (i + 1) id state d1)
                (λ u d2. remove_members w (i + 3) cutoff state (suc deleted) ids d2)
        ]
      ])

  -- The loop of RemoveExpired over the states.
  unfoldable pub remove_states : World Db → ℕ → ℕ → ℕ → List String → Db → Result ℕ × Db
  unfolding remove_members
  remove_states w i cutoff deleted [] d = (ok deleted, d)
  remove_states w i cutoff deleted (state ∷ states) d = ask r w i d (λ d1.
      let ids = smembers (state_index_key state) d1 in
      after r (remove_members w (i + 1) cutoff state deleted ids d1)
        (λ n d2. remove_states w (i + 1 + 3 * length ids) cutoff n states d2))

  -- Storage.RemoveExpired
  unfoldable pub remove_expired : World Db → ℕ → Db → Result ℕ × Db
  unfolding remove_states
  remove_expired w cutoff d =
      remove_states w 0 cutoff 0 (state_succeeded ∷ state_failed ∷ state_deleted ∷ []) d
