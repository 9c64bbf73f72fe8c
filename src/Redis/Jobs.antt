-- ===== src/Redis/Jobs.antt =====
-- internal/storage/redis/jobs.go: what its calls share. A call numbers its round trips; `rt` gives its
-- readings of the clock.
use gfire.Prelude.{ℕ, String, Option, none, some, [], ◌==◌, if◌then◌else◌}
use gfire.Prelude.Result.{Result, err, err_not_found, err_terminal_state, err_backend}
use gfire.Job.{JobState, irreversible_states}
use gfire.Redis.{Redis, World, ask}
use gfire.Redis.Keys.{job_key}
use gfire.Redis.Codec.{Codec, field}

abbrev pub plain_state : String → String → ℕ → JobState
plain_state name reason t = record { name = name; reason = reason; attrs = []; created_at = t }

module _ (r : Redis) where
  open r use {Db, view, exists}

  -- fields["state"], as HGET finds it; the client reports a field that is not there.
  abbrev pub state_of : String → Db → Option String
  state_of id d = (view d).hashes (job_key id) "state"

  -- The check that Requeue and DeleteJob begin with: the job is there, and its state can change.
  abbrev pub unless_final :
      World Db → String → Db → (Db → Result (Unit {0}) × Db) → Result (Unit {0}) × Db
  unless_final w id d next = ask r w 0 d (λ d1.
      if exists (job_key id) d1
      then ask r w 1 d1 (λ d2. elim (state_of id d2) [
        | none ↦ (err err_backend, d2)
        | some name ↦ if irreversible_states name then (err err_terminal_state, d2) else next d2
      ])
      else (err err_not_found, d1))

abbrev pub queue_of : (r : Redis) (c : Codec) → String → r.Db → String
queue_of r c id d =
    let queue = field c "queue" ((r.view d).hashes (job_key id)) in
    if queue == "" then "default" else queue
