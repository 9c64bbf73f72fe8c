-- ===== src/Redis/Transitions.antt =====
-- internal/storage/redis/jobs.go and retry.go: what the pipelines of the transitions record.
use gfire.Prelude.{ℕ, ◌≡◌, refl, String, Bool, true, false, not, ◌&&◌, List, [], ◌∷◌, ◌++◌, ◌==◌}
use gfire.Prelude.Int.{pos}
use gfire.Prelude.Dict.{eq_self}
use gfire.Job.{JobState, Runtime, state_enqueued, state_processing, state_deleted}
use gfire.Redis.{Redis, Command, View}
use gfire.Redis.Keys.{job_key, job_states_key, processing_key, state_index_key, counter_key}
use gfire.Redis.Codec.{Codec}
use gfire.Redis.Jobs.{plain_state}
use gfire.Redis.States.{
  when, apply_commands, counter_name, delete_commands, retry_commands, retry_state,
}
use gfire.Redis.Queues.{requeue_commands}
use gfire.Redis.Apart.{
  queue_key-job_states_key, job_key-eq, job_states_key-eq, processing_key-job_key,
}
use gfire.Redis.Laws.{effects}
use gfire.Redis.Represents.{Records}

module _ (r : Redis) (c : Codec) where
  -- The optional commands at the end of ApplyState's script leave the hashes of the jobs and the lists alone.
  abbrev optional : Bool → Bool → String → String → List Command
  optional leaves counts name id =
      when r c leaves (Command.hdel processing_key id)
      ++ when r c counts (Command.incrby (counter_key name) (pos 1))

  optional-hashes :
      (leaves counts : Bool) (name id j : String) (v : View)
      → (effects (optional leaves counts name id) v).hashes (job_key j) ≡ v.hashes (job_key j)
  optional-hashes true true name id j v = rw (processing_key-job_key j) refl
  optional-hashes true false name id j v = rw (processing_key-job_key j) refl
  optional-hashes false true name id j v = refl
  optional-hashes false false name id j v = refl

  optional-lists :
      (leaves counts : Bool) (name id : String) (v : View)
      → (effects (optional leaves counts name id) v).lists ≡ v.lists
  optional-lists true true name id v = refl
  optional-lists true false name id v = refl
  optional-lists false true name id v = refl
  optional-lists false false name id v = refl

  abbrev script : Bool → Bool → Bool → String → String → String → JobState → List Command
  script stops leaves counts name id expected st =
      (Command.hset (job_key id) (("state", st.name) ∷ ("updated_at", c.format st.created_at) ∷ [])
        ∷ [])
      ++ (when r c stops (Command.hdel (job_key id) "progress_at")
          ++ ((Command.rpush (job_states_key id) (c.marshal_state st)
                ∷ Command.srem (state_index_key expected) id
                ∷ Command.sadd (state_index_key st.name) id
                ∷ [])
              ++ optional leaves counts name id))

  script-Records :
      (stops leaves counts : Bool) (name id expected : String) (st : JobState) (v : View)
      → Records c.marshal_state id st v (effects (script stops leaves counts name id expected st) v)
  script-Records true leaves counts name id expected st v = (
    rw (optional-hashes leaves counts name id id, eq_self (job_key id)) refl,
    rw (optional-lists leaves counts name id, eq_self (job_states_key id)) refl,
    λ j e. rw (optional-hashes leaves counts name id j, job_key-eq id j, e) refl,
    λ j e. rw (optional-lists leaves counts name id, job_states_key-eq id j e) refl,
  )
  script-Records false leaves counts name id expected st v = (
    rw (optional-hashes leaves counts name id id, eq_self (job_key id)) refl,
    rw (optional-lists leaves counts name id, eq_self (job_states_key id)) refl,
    λ j e. rw (optional-hashes leaves counts name id j, job_key-eq id j, e) refl,
    λ j e. rw (optional-lists leaves counts name id, job_states_key-eq id j e) refl,
  )

  pub apply_commands-Records :
      (id expected : String) (st : JobState) (v : View)
      → Records c.marshal_state id st v (effects (apply_commands r c id expected st) v)
  apply_commands-Records id expected st v =
      script-Records (not (st.name == state_processing))
        (expected == state_processing && not (st.name == state_processing))
        (not (counter_name r c st.name == "")) (counter_name r c st.name) id expected st v

  pub delete_commands-Records :
      (rt : Runtime) (id : String) (v : View)
      → Records c.marshal_state id
          (plain_state state_deleted "" (rt.clock 0))
          v
          (effects (delete_commands r c rt id) v)
  delete_commands-Records rt id v = (
    rw (eq_self (job_key id)) refl,
    rw (eq_self (job_states_key id)) refl,
    λ j e. rw (job_key-eq id j, e) refl,
    λ j e. rw (job_states_key-eq id j e) refl,
  )

  pub requeue_commands-Records :
      (rt : Runtime) (id reason queue : String) (v : View)
      → Records c.marshal_state id
          (plain_state state_enqueued reason (rt.clock 0))
          v
          (effects (requeue_commands r c rt id reason queue) v)
  requeue_commands-Records rt id reason queue v = (
    rw (processing_key-job_key id, eq_self (job_key id)) refl,
    rw (queue_key-job_states_key queue id, eq_self (job_states_key id)) refl,
    λ j e. rw (processing_key-job_key j, job_key-eq id j, e) refl,
    λ j e. rw (queue_key-job_states_key queue j, job_states_key-eq id j e) refl,
  )

  pub retry_commands-Records :
      (rt : Runtime) (id : String) (at : ℕ) (v : View)
      → Records c.marshal_state id
          (retry_state r c rt at)
          v
          (effects (retry_commands r c rt id at) v)
  retry_commands-Records rt id at v = (
    rw (eq_self (job_key id)) refl,
    rw (eq_self (job_states_key id)) refl,
    λ j e. rw (job_key-eq id j, e) refl,
    λ j e. rw (job_states_key-eq id j e) refl,
  )
