-- ===== src/Memory/Moves.antt =====
-- The transitions of memory.go as one type of calls, for the comparison with the other stores.
use gfire.Prelude.{ℕ, String, List, [], ◌∷◌}
use gfire.Prelude.Result.{Result, ok, err, fault}
use gfire.Job.{JobState, Runtime}
use gfire.Memory.{Store}
use gfire.Memory.Queues
use gfire.Memory.States.{apply_state, delete_job, schedule_retry}

-- The transitions of a job, with the readings of the clock that each makes.
pub data Transition : Type 0 where
  apply : Runtime → String → String → JobState → Transition
  delete : Runtime → String → Transition
  retry : Runtime → String → ℕ → Transition
  requeue : Runtime → String → String → Transition

abbrev pub on_memory : Transition → Store → Result Store
on_memory (apply rt id expected st) s = apply_state rt id expected st s
on_memory (delete rt id) s = delete_job rt id s
on_memory (retry rt id at) s = schedule_retry rt id at s
on_memory (requeue rt id reason) s = Queues.requeue rt id reason s

abbrev pub answer : Result Store → Result (Unit {0})
answer (ok s) = ok tt
answer (err e) = err e
answer fault = fault

abbrev pub next : Result Store → Store → Store
next (ok s') s = s'
next (err e) s = s
next fault s = s

-- The answers to a sequence of transitions, and the store that it leaves.
unfoldable pub run_memory : List Transition → Store → List (Result (Unit {0})) × Store
run_memory [] s = ([], s)
run_memory (t ∷ ts) s =
    let m = on_memory t s in
    let (answers, s') = run_memory ts (next m s) in (answer m ∷ answers, s')
