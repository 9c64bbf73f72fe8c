-- ===== src/Redis/States.antt =====
-- internal/storage/redis/jobs.go and retry.go: transitions, heartbeats, orphans, deletion and retries.
use gfire.Prelude.{
  ℕ, suc, String, Bool, true, false, not, ◌&&◌, Option, none, some, List, [], ◌∷◌, ◌++◌, ◌==◌, ◌/◌,
  if◌then◌else◌, eqb, ltb, take,
}
use gfire.Prelude.Int.{ℤ, pos, ◌-ℤ◌}
use gfire.Prelude.Text.{◌<>◌}
use gfire.Prelude.Result.{Result, ok, err, err_not_found, err_state_conflict}
use gfire.Job.{
  JobState, JobTicket, Runtime, state_processing, state_succeeded, state_failed, state_scheduled,
  state_deleted,
}
use gfire.Memory.Query.{sub_time}
use gfire.Redis.{Redis, Command, World, Trip, answered, lost, apply_all, ask, send, call, done}
use gfire.Redis.Keys.{
  job_key, job_states_key, state_index_key, processing_key, scheduled_key, counter_key,
}
use gfire.Redis.Codec.{Codec, field}
use gfire.Redis.Jobs.{plain_state, state_of, unless_final}

-- Time.Unix: whole seconds since the Unix epoch.
abbrev pub unix : ℕ → ℤ
unix t = pos (t / 1_000_000_000) -ℤ pos 62_135_596_800

module _ (r : Redis) (c : Codec) where
  open r use {Db, view, exists, smembers, brpop}

  -- What ApplyState counts.
  abbrev pub counter_name : String → String
  counter_name name =
      if name == state_succeeded then "succeeded" else if name == state_failed then "failed" else ""

  abbrev pub when : Bool → Command → List Command
  when true command = command ∷ []
  when false command = []

  abbrev pub apply_commands : String → String → JobState → List Command
  apply_commands id expected st =
      (Command.hset (job_key id) (("state", st.name) ∷ ("updated_at", c.format st.created_at) ∷ [])
        ∷ [])
      ++ (when (not (st.name == state_processing)) (Command.hdel (job_key id) "progress_at")
          ++ ((Command.rpush (job_states_key id) (c.marshal_state st)
                ∷ Command.srem (state_index_key expected) id
                ∷ Command.sadd (state_index_key st.name) id
                ∷ [])
              ++ (when (expected == state_processing && not (st.name == state_processing))
                    (Command.hdel processing_key id)
                  ++ when (not (counter_name st.name == ""))
                      (Command.incrby (counter_key (counter_name st.name)) (pos 1)))))

  -- applyStateScript, with its three answers
  unfoldable pub apply_state_script : String → String → JobState → Db → Result (Unit {0}) × Db
  apply_state_script id expected st d = elim (state_of r id d) [
    | none ↦ (err err_not_found, d)
    | some current ↦
        if current == expected
        then (ok tt, apply_all r (apply_commands id expected st) d)
        else (err err_state_conflict, d)
  ]

  abbrev pub stamped : Runtime → JobState → JobState
  stamped rt st = record st {
    created_at = if eqb st.created_at 0 then rt.clock 0 else st.created_at;
  }

  -- Storage.ApplyState
  unfoldable pub apply_state :
      World Db → Runtime → String → String → JobState → Db → Result (Unit {0}) × Db
  unfolding apply_state_script
  apply_state w rt id expected st d =
      call r w 0 (apply_state_script id expected (stamped rt st)) d (λ answer. answer)

  -- Storage.HeartbeatJob
  unfoldable pub heartbeat_job : World Db → Runtime → String → String → Db → Result (Unit {0}) × Db
  heartbeat_job w rt server id d =
      let now = c.format (rt.clock 0) in
      ask r w 0 d (λ d1.
        if exists (job_key id) d1
        then send r w 1 (Command.hset (job_key id) (("progress_at", now) ∷ []) ∷ []) d1 (λ d2.
          send r w 2
            (Command.hset processing_key ((id, server <> ("|heartbeat|" <> now)) ∷ []) ∷ []) d2
            (done r))
        else (err err_not_found, d1))

  abbrev pub is_stale : ℕ → Option String → Bool
  is_stale cutoff none = true
  is_stale cutoff (some raw) =
      if raw == "" then true else elim (c.parse raw) [ none ↦ true | some at ↦ ltb at cutoff ]

  abbrev pub orphan_ticket : String → JobTicket
  orphan_ticket id = record { job_id = id; token = "orphan-" <> id }

  abbrev pub heard : Trip → Option String → Option String
  heard answered raw = raw
  heard (lost n) raw = none

  -- The loop of GetOrphanedJobs; an error of HGET leaves an empty text, which is an orphan's.
  unfoldable pub orphans : World Db → ℕ → ℕ → List String → Db → List JobTicket × Db
  orphans w i cutoff [] d = ([], d)
  orphans w i cutoff (id ∷ ids) d =
      let d' = w.meanwhile i d in
      let raw = heard (w.trip i) ((view d').hashes (job_key id) "progress_at") in
      let (tickets, d'') = orphans w (suc i) cutoff ids d' in
      (if is_stale cutoff raw then orphan_ticket id ∷ tickets else tickets, d'')

  -- Storage.GetOrphanedJobs
  unfoldable pub get_orphaned_jobs : World Db → Runtime → ℤ → Db → Result (List JobTicket) × Db
  unfolding orphans
  get_orphaned_jobs w rt age d = ask r w 0 d (λ d1.
      let (tickets, d2) =
        orphans w 1 (sub_time (rt.clock 0) age) (smembers (state_index_key state_processing) d1)
          d1 in
      (ok tickets, d2))

  -- The pipeline of DeleteJob.
  abbrev pub delete_commands : Runtime → String → List Command
  delete_commands rt id =
      Command.hset (job_key id)
        (("state", state_deleted) ∷ ("updated_at", c.format (rt.clock 0)) ∷ [])
      ∷ Command.hdel (job_key id) "progress_at"
      ∷ Command.rpush (job_states_key id)
          (c.marshal_state (plain_state state_deleted "" (rt.clock 0)))
      ∷ []

  -- Storage.DeleteJob
  unfoldable pub delete_job : World Db → Runtime → String → Db → Result (Unit {0}) × Db
  delete_job w rt id d =
      unless_final r w id d (λ d2. send r w 2 (delete_commands rt id) d2 (done r))

  -- enqueueAt is formatted in UTC, the one zone of the model.
  abbrev pub retry_state : Runtime → ℕ → JobState
  retry_state rt at = record {
    name = state_scheduled;
    reason = "";
    attrs = ("enqueue_at", rt.rfc3339 at) ∷ [];
    created_at = rt.clock 0;
  }

  abbrev pub retry_commands : Runtime → String → ℕ → List Command
  retry_commands rt id at =
      Command.hset (job_key id)
        (("state", state_scheduled) ∷ ("updated_at", c.format (rt.clock 0)) ∷ [])
      ∷ Command.rpush (job_states_key id) (c.marshal_state (retry_state rt at))
      ∷ Command.zadd scheduled_key (unix at) id
      ∷ Command.srem (state_index_key state_failed) id
      ∷ Command.sadd (state_index_key state_scheduled) id
      ∷ Command.incrby (counter_key "scheduled") (pos 1)
      ∷ []

  -- Storage.ScheduleRetry
  unfoldable pub schedule_retry : World Db → Runtime → String → ℕ → Db → Result (Unit {0}) × Db
  schedule_retry w rt id at d = ask r w 0 d (λ d1.
      if exists (job_key id) d1
      then if field c "state" ((view d1).hashes (job_key id)) == state_failed
        then send r w 1 (retry_commands rt id at) d1 (done r)
        else (err err_state_conflict, d1)
      else (err err_not_found, d1))

  -- Storage.SetJobResult
  unfoldable pub set_job_result : World Db → String → List ℕ → Db → Result (Unit {0}) × Db
  set_job_result w id result d = ask r w 0 d (λ d1.
      if exists (job_key id) d1
      then send r w 1 (Command.hset (job_key id) (("result", c.text (take 65536 result)) ∷ []) ∷ [])
          d1 (done r)
      else (err err_not_found, d1))
