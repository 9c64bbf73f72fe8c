-- ===== src/Postgres/Refinement.antt =====
-- internal/storage/postgres against internal/storage/memory/memory.go: sequences of transitions.
use mathlib.Core.Path.{ap₂}
use gfire.Prelude.{◌≡◌, refl, List, [], ◌∷◌}
use gfire.Prelude.Result.{Result}
use gfire.Memory.{Store}
use gfire.Memory.Moves.{Transition, on_memory, next, run_memory}
use gfire.Memory.Paired.{Paired, on_memory-Paired}
use gfire.Postgres.{Tables}
use gfire.Postgres.Represents.{Represents}
use gfire.Postgres.Agreement.{
  on_postgres, Agrees, apply_agrees, delete_agrees, retry_agrees, requeue_agrees,
}

unfoldable pub run_postgres : List Transition → Tables → List (Result (Unit {0})) × Tables
run_postgres [] t = ([], t)
run_postgres (c ∷ cs) t =
    let o = on_postgres c t in let (answers, t') = run_postgres cs o.1 in (o.0 ∷ answers, t')

step_agrees :
    (c : Transition) (t : Tables) (s : Store)
    → Represents t s.job_states
    → Paired s
    → Agrees s (on_postgres c t) (on_memory c s)
step_agrees (Transition.apply rt id expected st) t s rep pair =
    apply_agrees rt id t s rep expected st
step_agrees (Transition.delete rt id) t s rep pair = delete_agrees rt id t s rep
step_agrees (Transition.retry rt id at) t s rep pair = retry_agrees rt id t s rep at
step_agrees (Transition.requeue rt id reason) t s rep pair =
    requeue_agrees rt id reason t s rep pair

-- The PostgreSQL store refines the in-memory store: from tables that have the same jobs and, for
-- each, the same names of states in the order of their insertion, where the in-memory store has a
-- history for its jobs and for no others, every sequence of calls of ApplyState, DeleteJob,
-- ScheduleRetry and Requeue, with no other transaction and no failing statement, gets the same
-- answers from both, refusals included, and leaves tables with the same names of states.
pub run_postgres-run_memory :
    (cs : List Transition) (t : Tables) (s : Store)
    → Represents t s.job_states
    → Paired s
    → ((run_postgres cs t).0 ≡ (run_memory cs s).0)
      × Represents (run_postgres cs t).1 (run_memory cs s).1.job_states
unfolding run_postgres run_memory
run_postgres-run_memory [] t s rep pair = (refl, rep)
run_postgres-run_memory (c ∷ cs) t s rep pair =
    let step = step_agrees c t s rep pair in
    let rest =
      run_postgres-run_memory cs (on_postgres c t).1 (next (on_memory c s) s) step.1
        (on_memory-Paired c s pair) in
    (ap₂ (λ a l. a ∷ l) step.0 rest.0, rest.1)
