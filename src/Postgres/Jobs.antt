-- ===== src/Postgres/Jobs.antt =====
-- internal/storage/postgres/jobs.go: Enqueue, EnqueueIdempotent and Dequeue. `rt` gives the readings of the clock of a call.
use gfire.Prelude.{
  ℕ, zero, suc, ◌/◌, String, Bool, true, false, not, ◌&&◌, Option, none, some, List, [], ◌∷◌, ◌++◌,
  ◌==◌, if◌then◌else◌, is_empty, ltb,
}
use gfire.Prelude.Int.{ℤ, pos, negsuc}
use gfire.Prelude.Text.{◌<>◌, decimal_int}
use gfire.Prelude.Dict.{is_some}
use gfire.Prelude.Result.{Result, ok, err, fault, err_queue_empty, err_backend}
use gfire.Job.{Job, JobState, JobTicket, Runtime, state_enqueued, state_processing}
use gfire.Memory.{unix_nano}
use gfire.Postgres.{
  Row, Tables, Session, find_row, update, add_state, bump_counter, exec, transaction,
}

-- timeoutMS
abbrev pub timeout_ms : ℤ → ℤ
timeout_ms (pos n) = pos (n / 1_000_000)
timeout_ms (negsuc n) = pos 0

abbrev pub plain_state : String → String → ℕ → JobState
plain_state name reason t = record { name = name; reason = reason; attrs = []; created_at = t }

abbrev is_zero : ℤ → Bool
is_zero (pos zero) = true
is_zero (pos (suc n)) = false
is_zero (negsuc n) = false

-- The defaults that Enqueue writes into the job.
abbrev pub prepared : Runtime → String → Job → Job
prepared rt queue job = record job {
  id = if job.id == "" then rt.uuid 0 else job.id;
  queue = if queue == "" then "default" else queue;
  retry_max = if is_zero job.retry_max then pos 10 else job.retry_max;
  args = if is_empty job.args then 91 ∷ 93 ∷ [] else job.args;
  created_at = rt.clock 0;
}

-- The row that INSERT INTO gfire.jobs writes.
abbrev pub new_row : Job → String → Option String → ℕ → ℕ → Row
new_row job state key token now = record {
  id = job.id;
  queue_token = token;
  name = job.name;
  args = job.args;
  queue = job.queue;
  state = state;
  retry_max = job.retry_max;
  timeout_ms = timeout_ms job.timeout;
  idempotency_key = key;
  progress_at = none;
  created_at = now;
  updated_at = now;
  result = [];
}

abbrev pub insert_row : Job → String → Option String → ℕ → Tables → Tables
insert_row job state key now t = record t {
  jobs = t.jobs ++ new_row job state key t.sequence now ∷ [];
  sequence = suc t.sequence;
}

abbrev pub has_key : String → Option String → Bool
has_key key none = false
has_key key (some k) = k == key

-- SELECT id FROM gfire.jobs WHERE idempotency_key = $1
abbrev pub find_key : String → List Row → Option String
find_key key [] = none
find_key key (row ∷ rows) =
    let rest = find_key key rows in if has_key key row.idempotency_key then some row.id else rest

abbrev pub key_taken : Option String → List Row → Bool
key_taken none rows = false
key_taken (some key) rows = is_some (find_key key rows)

-- INSERT INTO gfire.jobs, which the primary key, the unique key and the type of args may refuse.
abbrev pub insert_job :
    Session
    → ℕ
    → Job
    → String
    → Option String
    → ℕ
    → Tables
    → (Tables → Result (String × Tables))
    → Result (String × Tables)
insert_job w i job state key now t next =
    if is_some (find_row job.id t.jobs)
    then err err_backend
    else if key_taken key t.jobs
    then err err_backend
    else elim (w.json job.args) [
      | none ↦ err err_backend
      | some args ↦ exec w i (insert_row (record job { args = args }) state key now) t next
    ]

-- The transaction of Enqueue and EnqueueIdempotent, for a job with its defaults.
abbrev pub enqueue_tx : Session → Runtime → Job → Option String → Tables → Result (String × Tables)
enqueue_tx w rt job key t = insert_job w 1 job state_enqueued key (rt.clock 0) t (λ t1.
    exec w 2 (add_state job.id (plain_state state_enqueued "" (rt.clock 0))) t1
      (λ t2. exec w 3 (bump_counter "enqueued" (pos 1)) t2 (λ t3. ok (job.id, t3))))

abbrev pub enqueue_job : Session → Runtime → Job → Option String → Tables → Result String × Tables
enqueue_job w rt job key t = transaction w (enqueue_tx w rt job key) t

-- Storage.Enqueue
unfoldable pub enqueue : Session → Runtime → String → Job → Tables → Result String × Tables
enqueue w rt queue job t = enqueue_job w rt (prepared rt queue job) none t

abbrev pub null_if_empty : String → Option String
null_if_empty s = if s == "" then none else some s

-- What the first query of EnqueueIdempotent finds; an error of it is taken for no job.
abbrev pub existing : Session → String → Tables → Option String
existing w key t = if key == "" then none else if w.fails 4 then none else find_key key t.jobs

abbrev pub created : Result String × Tables → Result (String × Bool) × Tables
created (ok id, t) = (ok (id, true), t)
created (err e, t) = (err e, t)
created (fault, t) = (fault, t)

-- Storage.EnqueueIdempotent; other transactions may commit between its query and its transaction.
unfoldable pub enqueue_idempotent :
    Session → Runtime → String → Job → Tables → Result (String × Bool) × Tables
enqueue_idempotent w rt queue job t = elim (existing w job.idempotency_key t) [
  | some id ↦ (ok (id, false), t)
  | none ↦
      created (
        enqueue_job w rt (prepared rt queue job) (null_if_empty job.idempotency_key)
          (w.meanwhile t))
]

-- queue = ANY($2)
abbrev pub among : String → List String → Bool
among q [] = false
among q (p ∷ ps) = if q == p then true else among q ps

abbrev pub is_waiting : Session → List String → Row → Bool
is_waiting w queues row =
    row.state == state_enqueued && (among row.queue queues && not (w.locked row.id))

abbrev pub older : Row → Option Row → Row
older row none = row
older row (some other) = if ltb other.queue_token row.queue_token then other else row

-- SELECT … ORDER BY queue_token FOR UPDATE SKIP LOCKED LIMIT 1
abbrev pub oldest : Session → List String → List Row → Option Row
oldest w queues [] = none
oldest w queues (row ∷ rows) =
    let rest = oldest w queues rows in
    if is_waiting w queues row then some (older row rest) else rest

abbrev pub processing_state : String → ℕ → JobState
processing_state server t = record {
  name = state_processing;
  reason = "";
  attrs = ("server_id", server) ∷ [];
  created_at = t;
}

abbrev pub ticket : String → ℕ → JobTicket
ticket id now = record {
  job_id = id;
  token = "tok-" <> (id <> ("-" <> decimal_int (unix_nano now)));
}

abbrev pub start_row : ℕ → Row → Row
start_row now row = record row {
  state = state_processing;
  progress_at = some now;
  updated_at = now;
}

-- The transaction of tryDequeue.
abbrev pub try_dequeue_tx :
    Session → Runtime → String → List String → Tables → Result (JobTicket × Tables)
try_dequeue_tx w rt server queues t =
    if w.fails 1 then err err_backend else elim (oldest w queues t.jobs) [
      | none ↦ err err_queue_empty
      | some row ↦ exec w 2 (update row.id (start_row (rt.clock 0))) t (λ t1.
          exec w 3 (add_state row.id (processing_state server (rt.clock 0))) t1 (λ t2.
            exec w 4 (bump_counter "dequeued" (pos 1)) t2
              (λ t3. ok (ticket row.id (rt.clock 0), t3))))
    ]

-- tryDequeue
unfoldable pub try_dequeue :
    Session → Runtime → String → List String → Tables → Result JobTicket × Tables
try_dequeue w rt server queues t = transaction w (try_dequeue_tx w rt server queues) t

-- Storage.Dequeue: a try, and one after each wait of the list, with what others commit during the
-- wait, until the deadline.
unfoldable pub dequeue :
    Session
    → Runtime
    → String
    → List String
    → List (Tables → Tables)
    → Tables
    → Result JobTicket × Tables
unfolding try_dequeue
dequeue w rt server [] waits t = (err err_queue_empty, t)
dequeue w rt server (q ∷ queues) waits t = go waits (try_dequeue w rt server (q ∷ queues) t)
  where
    go : List (Tables → Tables) → Result JobTicket × Tables → Result JobTicket × Tables
    go [] o = o
    go (wait ∷ waits) (ok a, t') = (ok a, t')
    go (wait ∷ waits) (fault, t') = (fault, t')
    go (wait ∷ waits) (err err_queue_empty, t') =
        go waits (try_dequeue w rt server (q ∷ queues) (wait t'))
    go (wait ∷ waits) (err e, t') = (err e, t')
