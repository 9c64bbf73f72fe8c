-- ===== src/Memory.antt =====
-- internal/storage/memory/memory.go: the state of the in-memory store and the helpers that its
-- methods share. The methods stand in the child modules, a module for each section of the file.
pub mod Queues
pub mod Dispatch
pub mod States
pub mod Moves
pub mod Paired
pub mod Query
pub mod Registry
pub mod Scheduled
pub mod Recurring
pub mod Locks
pub mod Maintenance
pub mod WellFormed
pub mod Transitions
pub mod Orphans
pub mod Idempotency
pub mod Exclusion
pub mod Expiry
pub mod Due
pub mod Calls
pub mod Tests
use gfire.Prelude.{
  ℕ, ◌+◌, ◌*◌, ◌≡◌, String, Bool, true, false, Option, none, some, get_or, List, [], ◌∷◌, ◌++◌,
}
use gfire.Prelude.Int.{ℤ, pos, ◌+ℤ◌, ◌-ℤ◌, int64}
use gfire.Prelude.Dict.{Dict, empty, insert}
use gfire.Job.{Job, JobState, RecurringJobEntry, ContinuationEntry, ServerInfo}

-- memory.memoryLock; its pointer to the store is the store that Release is given.
pub record MemoryLock : Type 0 where
  pub resource : String
  pub owner_id : String
  pub expires_at : ℕ
  pub released : Bool

-- memory.Storage. The mutex makes each method one step, so it is a state only inside Dequeue.
-- `dequeue_ch` says whether the channel of capacity 1 holds a value.
pub record Store : Type 0 where
  pub jobs : Dict Job
  pub job_states : Dict (List JobState)
  pub queues : Dict (List String)
  pub queue_tokens : Dict ℤ
  pub scheduled : Dict ℕ
  pub processing : Dict String
  pub progress : Dict ℕ
  pub recurring : Dict RecurringJobEntry
  pub continuations : Dict (List ContinuationEntry)
  pub servers : Dict ServerInfo
  pub counters : Dict ℤ
  pub locks : Dict MemoryLock
  pub dequeue_ch : Bool
  pub idempotency : Dict String

-- New
abbrev pub new : Store
new = record {
  jobs = empty;
  job_states = empty;
  queues = empty;
  queue_tokens = empty;
  scheduled = empty;
  processing = empty;
  progress = empty;
  recurring = empty;
  continuations = empty;
  servers = empty;
  counters = empty;
  locks = empty;
  dequeue_ch = false;
  idempotency = empty;
}

abbrev list_or_nil {ℓ} : {A : Type ℓ} → Option (List A) → List A
list_or_nil none = []
list_or_nil (some xs) = xs

-- A read of a map of slices: a missing key gives the nil slice.
abbrev pub read_list {ℓ} : {A : Type ℓ} → String → Dict (List A) → List A
read_list k m = list_or_nil (m k)

abbrev int_or_zero : Option ℤ → ℤ
int_or_zero none = pos 0
int_or_zero (some n) = n

-- s.counters[key]
abbrev pub count : String → Dict ℤ → ℤ
count k m = int_or_zero (m k)

-- s.counters[key] += delta, in an int64
abbrev pub add_count : String → ℤ → Dict ℤ → Dict ℤ
add_count k delta m = insert k (int64 (count k m +ℤ delta)) m

-- append(s.jobStates[jobID], st)
abbrev pub push_state : String → JobState → Dict (List JobState) → Dict (List JobState)
push_state id st m = insert id (read_list id m ++ st ∷ []) m

-- The queue made if it is missing, and PushBack.
abbrev pub push_back : String → String → Dict (List String) → Dict (List String)
push_back q id m = insert q (read_list q m ++ id ∷ []) m

-- The zero of Unix time, in nanoseconds since Go's zero time.
abbrev unix_epoch : ℕ
unix_epoch = 62_135_596_800 * 1_000_000_000

-- Time.UnixNano
unfoldable pub unix_nano : ℕ → ℤ
unix_nano t = int64 (pos t -ℤ pos unix_epoch)
