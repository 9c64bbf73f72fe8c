-- ===== src/Redis/Refinement.antt =====
-- internal/storage/redis against internal/storage/memory/memory.go: sequences of transitions.
use gfire.Prelude.{◌≡◌, refl, List, [], ◌∷◌}
use mathlib.Core.Path.{ap₂}
use gfire.Prelude.Result.{Result}
use gfire.Memory.{Store}
use gfire.Memory.Moves.{Transition, on_memory, next, run_memory}
use gfire.Memory.Paired.{Paired, on_memory-Paired}
use gfire.Redis.{Redis}
use gfire.Redis.Codec.{Codec}
use gfire.Redis.Agreement.{
  on_redis, Holds, Agrees, apply_agrees, delete_agrees, retry_agrees, requeue_agrees,
}

module _ (r : Redis) (c : Codec) where
  unfoldable pub run_redis : List Transition → r.Db → List (Result (Unit {0})) × r.Db
  run_redis [] d = ([], d)
  run_redis (t ∷ ts) d =
      let o = on_redis r c t d in let (answers, d') = run_redis ts o.1 in (o.0 ∷ answers, d')

  step_agrees :
      (t : Transition) (d : r.Db) (s : Store)
      → Holds r c d s.job_states
      → Paired s
      → Agrees r c s (on_redis r c t d) (on_memory t s)
  step_agrees (Transition.apply rt id expected st) d s rep pair =
      apply_agrees r c rt id d s rep expected st
  step_agrees (Transition.delete rt id) d s rep pair = delete_agrees r c rt id d s rep
  step_agrees (Transition.retry rt id at) d s rep pair = retry_agrees r c rt id d s rep at
  step_agrees (Transition.requeue rt id reason) d s rep pair =
      requeue_agrees r c rt id reason d s rep pair

  -- The Redis store refines the in-memory store: from data that represent the same histories, where the
  -- in-memory store has a history for its jobs and for no others, every sequence of calls of
  -- ApplyState, DeleteJob, ScheduleRetry and Requeue, each on its own and with the same readings of
  -- the clock, gets the same answers from both, errors included, and leaves data that represent the
  -- same histories.
  pub run_redis-run_memory :
      (ts : List Transition) (d : r.Db) (s : Store)
      → Holds r c d s.job_states
      → Paired s
      → ((run_redis ts d).0 ≡ (run_memory ts s).0)
        × Holds r c (run_redis ts d).1 (run_memory ts s).1.job_states
  unfolding run_redis run_memory
  run_redis-run_memory [] d s rep pair = (refl, rep)
  run_redis-run_memory (t ∷ ts) d s rep pair =
      let step = step_agrees t d s rep pair in
      let rest =
        run_redis-run_memory ts (on_redis r c t d).1 (next (on_memory t s) s) step.1
          (on_memory-Paired t s pair) in
      (ap₂ (λ a l. a ∷ l) step.0 rest.0, rest.1)
