-- ===== src/Redis/Queueing.antt =====
-- internal/storage/redis/jobs.go: the history that Enqueue begins.
use gfire.Prelude.{◌≡◌, refl, sym, subst, String, none, List, [], ◌∷◌}
use gfire.Prelude.Dict.{Dict, insert}
use gfire.Job.{Job, JobState, Runtime, state_enqueued}
use gfire.Redis.{Redis, View, quiet}
use gfire.Redis.Codec.{Codec}
use gfire.Redis.Jobs.{plain_state}
use gfire.Redis.Queues.{prepared, enqueue, enqueue_commands}
use gfire.Redis.Apart.{job_key-eq, job_states_key-eq, queue_key-job_states_key}
use gfire.Redis.Laws.{effects, view-apply_all}
use gfire.Redis.Represents.{Represents, Records, Represents-Records_new}
use gfire.Redis.Broken.{queued}
use gfire.Redis.Agreement.{Holds}

module _ (r : Redis) (c : Codec) (rt : Runtime) where
  enqueue_commands-Records :
      (job : Job) (v : View)
      → Records c.marshal_state job.id
          (plain_state state_enqueued "" (rt.clock 0))
          v
          (effects (enqueue_commands r c rt job) v)
  enqueue_commands-Records job v =
      let q = queued r c rt job 3 v in
      (
        q.1,
        q.2,
        λ j e. rw (job_key-eq job.id j, e) refl,
        λ j e. rw (queue_key-job_states_key job.queue j, job_states_key-eq job.id j e) refl,
      )

  -- Enqueue of a job whose id is not in use, on its own, begins the history of that job with Enqueued and
  -- leaves all others as they are.
  pub enqueue-Holds :
      (queue : String) (job : Job) (d : r.Db) (m : Dict (List JobState))
      → Holds r c d m
      → m (prepared rt queue job).id ≡ none
      → Holds r c
          (enqueue r c quiet 0 rt queue job d).1
          (insert (prepared rt queue job).id (plain_state state_enqueued "" (rt.clock 0) ∷ []) m)
  unfolding enqueue
  enqueue-Holds queue job d m rep e =
      let job' : Job = prepared rt queue job in
      let st : JobState = plain_state state_enqueued "" (rt.clock 0) in
      subst (λ v. Represents c.marshal_state v (insert job'.id (st ∷ []) m))
        (sym (view-apply_all r (enqueue_commands r c rt job') d))
        (Represents-Records_new c.marshal_state (r.view d)
          (effects (enqueue_commands r c rt job') (r.view d)) m job'.id st rep e
          (enqueue_commands-Records job' (r.view d)))
