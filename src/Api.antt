-- ===== src/Api.antt =====
-- internal/api: requests, replies, and the jobs that a request describes. A body that encoding/json
-- cannot decode is `malformed`, with the text of its error.
pub mod Jobs
pub mod Batch
pub mod Recurring
pub mod Answers
pub mod Retries
pub mod Tests
use gfire.Prelude.{
  ℕ, ◌≡◌, String, Bool, Option, none, some, List, [], ◌∷◌, ◌==◌, if◌then◌else◌, is_empty,
}
use gfire.Prelude.Int.{ℤ, pos}
use gfire.Prelude.Result.{Error}
use gfire.Job.{Job, JobWithStates, Runtime}
use gfire.Memory.{Store}
use gfire.Memory.Queues.{enqueue, enqueue_idempotent}
use gfire.Engine.Worker.{queue_or_default}

pub data Decoded (A : Type 0) : Type 0 where
  decoded : A → Decoded A
  malformed : String → Decoded A

pub record EnqueueRequest : Type 0 where
  pub name : String
  pub args : List ℕ
  pub queue : String
  pub retry_max : ℤ
  pub timeout : String

-- scheduleRequest: the embedded request and the time.
pub record ScheduleRequest : Type 0 where
  pub request : EnqueueRequest
  pub enqueue_at : ℕ

pub record ContinueRequest : Type 0 where
  pub child_name : String
  pub child_args : List ℕ
  pub child_queue : String
  pub condition : String

pub record RecurringRequest : Type 0 where
  pub id : String
  pub job_name : String
  pub args : List ℕ
  pub queue : String
  pub cron_expr : String
  pub enabled : Option Bool

pub record Accepted : Type 0 where
  pub job_id : String
  pub name : String
  pub queue : String

pub record Rejected : Type 0 where
  pub name : String
  pub reason : String
  pub index : ℕ

-- The values that the handlers encode. `store_error` is the text of a store's error.
pub data Body : Type 0 where
  error : String → Body
  store_error : Error → Body
  enqueued : String → String → Body
  batch : List Accepted → List Rejected → ℕ → Body
  scheduled : String → ℕ → Body
  job : JobWithStates → Body
  jobs : List JobWithStates → Body
  status : String → Body
  recurring : String → String → String → Bool → Body
  triggered : String → String → Body

pub record Reply : Type 0 where
  pub code : ℕ
  pub body : Body

abbrev pub bad_request : String → Reply
bad_request message = record { code = 400; body = Body.error message }

-- "{}" for a request without arguments.
abbrev pub args_or_empty : List ℕ → List ℕ
args_or_empty args = if is_empty args then 123 ∷ 125 ∷ [] else args

-- The job of a request; the fields that the store fills in are zero.
abbrev pub requested_job : EnqueueRequest → ℤ → String → Job
requested_job req timeout key = record {
  id = "";
  name = req.name;
  args = args_or_empty req.args;
  queue = queue_or_default req.queue;
  retry_max = req.retry_max;
  timeout = timeout;
  idempotency_key = key;
  created_at = 0;
  result = [];
}

-- A timeout that is given is parsed; `parse_duration` is time.ParseDuration.
abbrev pub timeout_of : (String → Option ℤ) → String → Option ℤ
timeout_of parse_duration timeout = if timeout == "" then some (pos 0) else parse_duration timeout

-- The call of the store: a key asks for EnqueueIdempotent. The in-memory store returns no error.
unfoldable pub put_job : Runtime → Job → Store → String × Store
put_job rt j s =
    if j.idempotency_key == ""
    then enqueue rt j.queue j s
    else let (id, created, t) = enqueue_idempotent rt j.queue j s in (id, t)
