-- ===== src/Job.antt =====
-- internal/job: the job record, its states and their names, recurring entries, continuations,
-- servers and tickets. A time is the number of nanoseconds since Go's zero time.
use gfire.Prelude.{ℕ, String, Bool, ◌||◌, Option, none, some, List, last?, ◌==◌}
use gfire.Prelude.Int.{ℤ}

-- job.Job; a byte slice is the list of its bytes.
pub record Job : Type 0 where
  pub id : String
  pub name : String
  pub args : List ℕ
  pub queue : String
  pub retry_max : ℤ
  pub timeout : ℤ
  pub idempotency_key : String
  pub created_at : ℕ
  pub result : List ℕ

-- job.JobState; `attrs` is its field Data, a map built once from its entries.
pub record JobState : Type 0 where
  pub name : String
  pub reason : String
  pub attrs : List (String × String)
  pub created_at : ℕ

pub record JobWithStates : Type 0 where
  pub job : Job
  pub states : List JobState

abbrev pub state_enqueued : String
state_enqueued = "Enqueued"

abbrev pub state_processing : String
state_processing = "Processing"

abbrev pub state_succeeded : String
state_succeeded = "Succeeded"

abbrev pub state_failed : String
state_failed = "Failed"

abbrev pub state_scheduled : String
state_scheduled = "Scheduled"

abbrev pub state_deleted : String
state_deleted = "Deleted"

abbrev pub state_awaiting : String
state_awaiting = "Awaiting"

abbrev pub state_dead : String
state_dead = "Dead"

abbrev pub state_cancelled : String
state_cancelled = "Cancelled"

-- IrreversibleStates[name]
unfoldable pub irreversible_states : String → Bool
irreversible_states name =
    name == state_succeeded
    || name == state_dead
    || name == state_cancelled
    || name == state_deleted

-- TerminalStates[name]
unfoldable pub terminal_states : String → Bool
terminal_states name =
    name == state_succeeded
    || name == state_failed
    || name == state_deleted
    || name == state_dead
    || name == state_cancelled

abbrev name_of : Option JobState → String
name_of none = ""
name_of (some st) = st.name

-- The name of the last state, and "" of an empty history.
abbrev pub last_name : List JobState → String
last_name states = name_of (last? states)

-- JobWithStates.CurrentState
unfoldable pub current_state : JobWithStates → String
current_state j = last_name j.states

pub record ServerInfo : Type 0 where
  pub id : String
  pub started_at : ℕ
  pub last_heartbeat : ℕ
  pub worker_count : ℤ
  pub queues : List String
  pub status : String

abbrev pub server_status_active : String
server_status_active = "active"

pub record RecurringJobEntry : Type 0 where
  pub id : String
  pub job_name : String
  pub args : List ℕ
  pub queue : String
  pub cron_expr : String
  pub last_run : Option ℕ
  pub next_run : Option ℕ
  pub enabled : Bool
  pub created_at : ℕ
  pub updated_at : ℕ

pub record JobTicket : Type 0 where
  pub job_id : String
  pub token : String

pub record ContinuationEntry : Type 0 where
  pub child_name : String
  pub child_args : List ℕ
  pub child_queue : String
  pub condition : String
  pub created_at : ℕ

abbrev pub condition_on_succeeded : String
condition_on_succeeded = "OnSucceeded"

abbrev pub condition_on_failed : String
condition_on_failed = "OnFailed"

abbrev pub condition_on_any : String
condition_on_any = "OnAny"

-- What a call takes from outside: the readings of time.Now and the values of uuid.NewString, in
-- the order in which the call makes them, and the text that Time.Format(time.RFC3339) gives.
pub record Runtime : Type 0 where
  pub clock : ℕ → ℕ
  pub uuid : ℕ → String
  pub rfc3339 : ℕ → String
