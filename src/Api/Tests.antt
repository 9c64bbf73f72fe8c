-- ===== src/Api/Tests.antt =====
-- The theorems about internal/api at concrete requests.
use gfire.Prelude.{◌≡◌, refl, String, Option, some, [], ◌∷◌}
use gfire.Prelude.Int.{ℤ, pos}
use gfire.Prelude.Dict.{distinct}
use gfire.Job.{Job}
use gfire.Memory.{Store, new}
use gfire.Memory.Tests.{morning, noon, stored}
use gfire.Job.{state_enqueued}
use gfire.Api.{decoded, EnqueueRequest, Body}
use gfire.Api.Jobs.{handle_enqueue, handle_schedule}
use gfire.Api.Batch.{handle_batch_enqueue}
use gfire.Api.Answers.{handle_schedule_timeout, handle_enqueue_twice}
use gfire.Api.Retries.{handle_batch_enqueue_twice}

abbrev seconds_only : String → Option ℤ
seconds_only text = some (pos 5_000_000_000)

abbrev greeting : EnqueueRequest
greeting = record { name = "greet"; args = []; queue = "mail"; retry_max = pos 2; timeout = "5s" }

abbrev nameless : EnqueueRequest
nameless = record { name = ""; args = []; queue = ""; retry_max = pos 0; timeout = "" }

handle_batch_enqueue_twice_example :
    let (reply, t) =
      handle_batch_enqueue seconds_only
        (λ i. morning)
        "key"
        (decoded (greeting ∷ nameless ∷ greeting ∷ []))
        (stored state_enqueued) in
    (handle_batch_enqueue seconds_only
      (λ i. noon)
      "key"
      (decoded (greeting ∷ nameless ∷ greeting ∷ []))
      t).1
    ≡ t
handle_batch_enqueue_twice_example =
    handle_batch_enqueue_twice seconds_only (λ i. morning) (λ i. noon) "key"
      (greeting ∷ nameless ∷ greeting ∷ []) (stored state_enqueued) refl

handle_schedule_timeout_example :
    (id : String) × (job : Job) × (t : Store) × (handle_schedule morning
        (decoded (record { request = greeting; enqueue_at = 400 }))
        new
      ≡ (record { code = 201; body = Body.scheduled id 400 }, t))
    × (t.jobs id ≡ some job)
    × (job.name ≡ "greet")
    × (t.scheduled id ≡ some 400)
    × (job.timeout ≡ pos 0)
handle_schedule_timeout_example =
    handle_schedule_timeout morning (record { request = greeting; enqueue_at = 400 }) new refl refl

handle_enqueue_twice_example :
    let (reply, t) = handle_enqueue seconds_only morning "key" (decoded greeting) new in
    handle_enqueue seconds_only noon "key" (decoded greeting) t ≡ (reply, t)
handle_enqueue_twice_example =
    handle_enqueue_twice seconds_only morning noon "key" greeting (pos 5_000_000_000) new
      (distinct "key" "" refl) refl refl
