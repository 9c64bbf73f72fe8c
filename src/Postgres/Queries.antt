-- ===== src/Postgres/Queries.antt =====
-- internal/storage/postgres/queries.go: the reads of jobs and queues.
use gfire.Prelude.{
  ℕ, suc, ◌*◌, eqb, String, Bool, false, ◌&&◌, none, some, List, [], ◌∷◌, ◌==◌, if◌then◌else◌, ltb,
  take, drop,
}
use gfire.Prelude.Int.{ℤ, pos, negsuc, pos_part, leb_ℤ, int64}
use gfire.Prelude.Result.{Result, ok, err, fault, err_not_found, err_backend}
use gfire.Job.{Job, JobState, JobWithStates, state_enqueued}
use gfire.Postgres.{Row, Tables, Session, find_row}

-- durationFromMS
abbrev pub duration_from_ms : ℤ → ℤ
duration_from_ms (pos n) = int64 (pos (n * 1_000_000))
duration_from_ms (negsuc n) = pos 0

-- The text null
abbrev is_null : List ℕ → Bool
is_null (a ∷ b ∷ c ∷ d ∷ []) = eqb a 110 && (eqb b 117 && (eqb c 108 && eqb d 108))
is_null _ = false

-- scanJobFromRow
abbrev pub row_job : Row → Job
row_job row = record {
  id = row.id;
  name = row.name;
  args = row.args;
  queue = row.queue;
  retry_max = row.retry_max;
  timeout = duration_from_ms row.timeout_ms;
  idempotency_key = "";
  created_at = row.created_at;
  result = if is_null row.result then [] else row.result;
}

-- ORDER BY created_at ASC, id ASC, for states that come in the order of their ids from the last on
abbrev pub place_state : JobState → List JobState → List JobState
place_state st [] = st ∷ []
place_state st (x ∷ xs) =
    let rest = place_state st xs in if ltb x.created_at st.created_at then x ∷ rest else st ∷ x ∷ xs

-- The rows of loadStates.
abbrev pub states_of : String → List (String × JobState) → List JobState
states_of id [] = []
states_of id ((j, st) ∷ rows) =
    let rest = states_of id rows in if j == id then place_state st rest else rest

-- loadStates
abbrev pub load_states : Session → ℕ → String → Tables → Result (List JobState)
load_states w i id t = if w.fails i then err err_backend else ok (states_of id t.states)

abbrev with_states : Job → Result (List JobState) → Result JobWithStates
with_states job (ok states) = ok (record { job = job; states = states })
with_states job (err e) = err e
with_states job fault = fault

-- Storage.GetJob
unfoldable pub get_job : Session → String → Tables → Result JobWithStates
get_job w id t = if w.fails 0 then err err_backend else elim (find_row id t.jobs) [
  | none ↦ err err_not_found
  | some row ↦ with_states (row_job row) (load_states w 1 id t)
]

-- ORDER BY created_at DESC; rows of the same time are in an order of the server's own.
abbrev pub place_row : Row → List Row → List Row
place_row row [] = row ∷ []
place_row row (x ∷ xs) =
    let rest = place_row row xs in
    if ltb row.created_at x.created_at then x ∷ rest else row ∷ x ∷ xs

abbrev pub rows_in : String → List Row → List Row
rows_in state [] = []
rows_in state (row ∷ rows) =
    let rest = rows_in state rows in
    if state == ""
    then place_row row rest
    else if row.state == state
    then place_row row rest
    else rest

abbrev limit_or_default : ℤ → ℕ
limit_or_default limit = if leb_ℤ limit (pos 0) then 100 else pos_part limit

abbrev cons_job : Result JobWithStates → Result (List JobWithStates) → Result (List JobWithStates)
cons_job (ok j) (ok js) = ok (j ∷ js)
cons_job (ok j) (err e) = err e
cons_job (ok j) fault = fault
cons_job (err e) rest = err e
cons_job fault rest = fault

abbrev pub load_rows : Session → ℕ → List Row → Tables → Result (List JobWithStates)
load_rows w i [] t = ok []
load_rows w i (row ∷ rows) t =
    cons_job (with_states (row_job row) (load_states w i row.id t)) (load_rows w (suc i) rows t)

-- Storage.GetJobsByState; an OFFSET that is negative is an error of the server.
unfoldable pub get_jobs_by_state : Session → String → ℤ → ℤ → Tables → Result (List JobWithStates)
get_jobs_by_state w state (negsuc n) limit t = err err_backend
get_jobs_by_state w state (pos offset) limit t =
    if w.fails 0
    then err err_backend
    else load_rows w 1 (take (limit_or_default limit) (drop offset (rows_in state t.jobs))) t

abbrev pub count_waiting : String → List Row → ℕ
count_waiting queue [] = 0
count_waiting queue (row ∷ rows) =
    let rest = count_waiting queue rows in
    if row.queue == queue && row.state == state_enqueued then suc rest else rest

-- Storage.GetQueueLength
unfoldable pub get_queue_length : Session → String → Tables → Result ℕ
get_queue_length w queue t = if w.fails 0 then err err_backend else ok (count_waiting queue t.jobs)
