-- ===== src/Engine/Worker/Children.antt =====
-- Which child jobs fireContinuations of internal/engine/continuations.go enqueues.
use gfire.Prelude.{ℕ, ◌+◌, String, List, [], ◌∷◌, ◌==◌, if◌then◌else◌}
use gfire.Job.{ContinuationEntry}
use gfire.Engine.Storage.{Storage}
use gfire.Engine.Worker.{continuation_matches, queue_or_default}

-- The entries whose condition fits the way in which the parent ended and whose jobs go to `q`.
abbrev pub children_in : String → String → List ContinuationEntry → ℕ
children_in terminal q [] = 0
children_in terminal q (entry ∷ entries) =
    (if continuation_matches terminal entry.condition
      then (if queue_or_default entry.child_queue == q then 1 else 0)
      else 0)
    + children_in terminal q entries
