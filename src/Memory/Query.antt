-- ===== src/Memory/Query.antt =====
-- The reads of memory.go. Go visits the entries of a map in an order of its own: it is the argument
-- `order`, the keys in the order of the visit.
use gfire.Prelude.{
  ℕ, ◌+◌, ◌-◌, String, Bool, false, ◌||◌, Option, none, some, List, [], ◌∷◌, ◌==◌, ltb, leb,
  if◌then◌else◌, length, take, drop,
}
use gfire.Prelude.Int.{ℤ, pos, negsuc, pos_part, neg_part}
use gfire.Prelude.Text.{◌<>◌}
use gfire.Prelude.Dict.{Dict}
use gfire.Prelude.Result.{Result, ok, err, fault, err_not_found}
use gfire.Job.{
  Job, JobWithStates, JobTicket, ServerInfo, RecurringJobEntry, ContinuationEntry, Runtime,
  last_name,
}
use gfire.Memory.{Store, read_list, count}

-- Time.Add, and Time.Add of the opposite duration.
abbrev pub add_time : ℕ → ℤ → ℕ
add_time t d = t + pos_part d - neg_part d

abbrev pub sub_time : ℕ → ℤ → ℕ
sub_time t d = t + neg_part d - pos_part d

abbrev pub is_before : Option ℕ → ℕ → Bool
is_before none cutoff = false
is_before (some t) cutoff = ltb t cutoff

unfoldable pub orphans : ℕ → List String → Dict ℕ → List JobTicket
orphans cutoff [] progress = []
orphans cutoff (id ∷ order) progress =
    let rest = orphans cutoff order progress in
    if is_before (progress id) cutoff
    then record { job_id = id; token = "orphan-" <> id } ∷ rest
    else rest

-- Storage.GetOrphanedJobs
unfoldable pub get_orphaned_jobs : Runtime → List String → ℤ → Store → List JobTicket
unfolding orphans
get_orphaned_jobs rt order stale_age s = orphans (sub_time (rt.clock 0) stale_age) order s.progress

-- Storage.GetJob
unfoldable pub get_job : String → Store → Result JobWithStates
get_job id s = elim (s.jobs id) [
  | none ↦ err err_not_found
  | some job ↦ ok (record { job = job; states = read_list id s.job_states })
]

-- The filter of GetJobsByState, at one visited entry.
abbrev pub in_state : String → Store → Option Job → List JobWithStates → List JobWithStates
in_state state s none rest = rest
in_state state s (some job) rest =
    if state == "" || last_name (read_list job.id s.job_states) == state
    then record { job = job; states = read_list job.id s.job_states } ∷ rest
    else rest

unfoldable pub jobs_in_state : String → List String → Store → List JobWithStates
jobs_in_state state [] s = []
jobs_in_state state (id ∷ order) s = in_state state s (s.jobs id) (jobs_in_state state order s)

abbrev limited : {A : Type 0} → ℤ → List A → List A
limited (pos n) xs = if ltb 0 n then take n xs else xs
limited (negsuc n) xs = xs

-- `offset >= len(result)`, the slice from `offset`, and the cut to `limit` entries. A negative
-- offset is out of the slice's range.
unfoldable pub paginate : {A : Type 0} → ℤ → ℤ → List A → Result (List A)
paginate (pos n) limit xs = if leb (length xs) n then ok [] else ok (limited limit (drop n xs))
paginate (negsuc n) limit xs = fault

-- Storage.GetJobsByState
unfoldable pub get_jobs_by_state :
    List String → String → ℤ → ℤ → Store → Result (List JobWithStates)
unfolding jobs_in_state paginate
get_jobs_by_state order state offset limit s = paginate offset limit (jobs_in_state state order s)

-- Storage.GetQueueLength
unfoldable pub get_queue_length : String → Store → ℕ
get_queue_length q s = length (read_list q s.queues)

-- The entries of a map at the visited keys.
unfoldable pub visit : {V : Type 0} → List String → Dict V → List V
visit [] m = []
visit (k ∷ order) m = let rest = visit order m in elim (m k) [ none ↦ rest | some v ↦ v ∷ rest ]

-- Storage.GetQueues: the visited keys themselves.
unfoldable pub get_queues : List String → Store → List String
get_queues order s = order

-- Storage.GetServers
unfoldable pub get_servers : List String → Store → List ServerInfo
unfolding visit
get_servers order s = visit order s.servers

-- Storage.GetRecurringJobs
unfoldable pub get_recurring_jobs : List String → Store → List RecurringJobEntry
unfolding visit
get_recurring_jobs order s = visit order s.recurring

-- Storage.GetContinuations
unfoldable pub get_continuations : String → Store → List ContinuationEntry
get_continuations parent s = read_list parent s.continuations

-- Storage.GetCounter
unfoldable pub get_counter : String → Store → ℤ
get_counter key s = count key s.counters
