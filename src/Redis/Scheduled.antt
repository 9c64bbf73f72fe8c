-- ===== src/Redis/Scheduled.antt =====
-- internal/storage/redis/scheduled.go: the scheduled jobs.
use gfire.Prelude.{ℕ, ◌+◌, String, true, false, List, [], ◌∷◌, if◌then◌else◌}
use gfire.Prelude.Int.{ℤ, pos, negsuc, pos_part, leb_ℤ}
use gfire.Prelude.Text.{◌<>◌}
use gfire.Prelude.Result.{Result, ok}
use gfire.Job.{Job, JobTicket, Runtime, state_enqueued, state_scheduled}
use gfire.Redis.{Redis, Command, World, answered, lost, apply_all, send, call, after, done}
use gfire.Redis.Keys.{
  job_key, job_states_key, queue_key, state_index_key, scheduled_key, queues_index_key, counter_key,
}
use gfire.Redis.Codec.{Codec, job_hash_fields}
use gfire.Redis.Jobs.{plain_state, queue_of}
use gfire.Redis.Queues.{prepared}
use gfire.Redis.States.{unix, retry_state}

module _ (r : Redis) (c : Codec) where
  open r use {Db, exists, range_by_score}

  -- The pipeline of AddScheduled, for a job with its defaults.
  abbrev pub schedule_commands : Runtime → ℕ → Job → List Command
  schedule_commands rt at job =
      Command.hset (job_key job.id) (job_hash_fields c job state_scheduled 0 (rt.clock 1))
      ∷ Command.rpush (job_states_key job.id) (c.marshal_state (retry_state r c rt at))
      ∷ Command.zadd scheduled_key (unix at) job.id
      ∷ Command.sadd (state_index_key state_scheduled) job.id
      ∷ Command.incrby (counter_key "scheduled") (pos 1)
      ∷ []

  -- Storage.AddScheduled
  unfoldable pub add_scheduled : World Db → Runtime → ℕ → Job → Db → Result String × Db
  unfolding job_hash_fields
  add_scheduled w rt at job d =
      let job' : Job = prepared rt job.queue job in
      send r w 0 (schedule_commands rt at job') d (λ d'. (ok job'.id, d'))

  abbrev pub remove_each : List String → List Command
  remove_each [] = []
  remove_each (id ∷ ids) = Command.zrem scheduled_key id ∷ remove_each ids

  -- promoteScheduledScript
  unfoldable pub promote_script : ℤ → ℕ → Db → List String × Db
  promote_script now batch d =
      let ids = range_by_score scheduled_key now batch d in (ids, apply_all r (remove_each ids) d)

  abbrev pub promote_commands : ℕ → String → String → List Command
  promote_commands ts id queue =
      Command.hset (job_key id) (("state", state_enqueued) ∷ ("updated_at", c.format ts) ∷ [])
      ∷ Command.rpush (job_states_key id)
          (c.marshal_state (plain_state state_enqueued "scheduled" ts))
      ∷ Command.lpush (queue_key queue) id
      ∷ Command.sadd queues_index_key queue
      ∷ Command.srem (state_index_key state_scheduled) id
      ∷ Command.sadd (state_index_key state_enqueued) id
      ∷ Command.incrby (counter_key "scheduled") (negsuc 0)
      ∷ Command.incrby (counter_key "enqueued") (pos 1)
      ∷ []

  abbrev pub due_ticket : String → JobTicket
  due_ticket id = record { job_id = id; token = "sched-" <> id }

  abbrev add_ticket : String → List JobTicket → Db → Result (List JobTicket) × Db
  add_ticket id tickets d = (ok (due_ticket id ∷ tickets), d)

  -- The loop over the ids that the script has taken off the schedule. A job whose hash is not read
  -- is skipped.
  unfoldable pub promote_all : World Db → ℕ → ℕ → List String → Db → Result (List JobTicket) × Db
  promote_all w i ts [] d = (ok [], d)
  promote_all w i ts (id ∷ ids) d = elim (w.trip i) [
    | lost n ↦ promote_all w (i + 2) ts ids (w.meanwhile i d)
    | answered ↦ elim (exists (job_key id) (w.meanwhile i d)) [
      | false ↦ promote_all w (i + 2) ts ids (w.meanwhile i d)
      | true ↦
          send r w (i + 1) (promote_commands ts id (queue_of r c id (w.meanwhile i d)))
            (w.meanwhile i d) (λ d2. after r (promote_all w (i + 2) ts ids d2) (add_ticket id))
    ]
  ]

  abbrev pub batch_or_default : ℤ → ℕ
  batch_or_default batch = if leb_ℤ batch (pos 0) then 100 else pos_part batch

  -- Storage.GetDueScheduled
  unfoldable pub get_due_scheduled : World Db → Runtime → ℕ → ℤ → Db → Result (List JobTicket) × Db
  unfolding promote_script promote_all
  get_due_scheduled w rt now batch d =
      call r w 0 (promote_script (unix now) (batch_or_default batch)) d
        (λ taken. promote_all w 1 (rt.clock 0) taken.0 taken.1)

  -- Storage.RemoveScheduled
  unfoldable pub remove_scheduled : World Db → String → Db → Result (Unit {0}) × Db
  remove_scheduled w id d = send r w 0 (Command.zrem scheduled_key id ∷ []) d (done r)
