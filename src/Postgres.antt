-- ===== src/Postgres.antt =====
-- internal/storage/postgres: the tables of migrations/001_initial.up.sql, the
-- statements on them, and the transactions.
pub mod Jobs
pub mod States
pub mod Scheduled
pub mod Registry
pub mod Queries
pub mod Locks
pub mod Exclusion
pub mod Represents
pub mod Agreement
pub mod Refinement
pub mod Atomic
pub mod Order
pub mod Hazards
pub mod Tests
use gfire.Prelude.{
  ℕ, zero, suc, ◌+◌, ◌≡◌, String, Bool, true, false, not, ◌&&◌, Option, none, some, List, [], ◌∷◌,
  ◌++◌, ◌==◌, if◌then◌else◌,
}
use gfire.Prelude.Int.{ℤ, pos, ◌+ℤ◌}
use gfire.Prelude.Dict.{Dict, insert}
use gfire.Prelude.Result.{Result, ok, err, fault, err_backend}
use gfire.Job.{JobState, ServerInfo, RecurringJobEntry, ContinuationEntry}

-- A row of gfire.jobs.
pub record Row : Type 0 where
  pub id : String
  pub queue_token : ℕ
  pub name : String
  pub args : List ℕ
  pub queue : String
  pub state : String
  pub retry_max : ℤ
  pub timeout_ms : ℤ
  pub idempotency_key : Option String
  pub progress_at : Option ℕ
  pub created_at : ℕ
  pub updated_at : ℕ
  pub result : List ℕ

-- The tables, with the rows in the order of their insertion; `sequence` is the next value of
-- queue_token. A row of gfire.job_states is the job's id and the state, one of gfire.scheduled_jobs
-- the job's id and its time, one of gfire.continuations the parent's id and the child. A row of
-- gfire.locks is the owner and the time of expiry.
pub record Tables : Type 0 where
  pub jobs : List Row
  pub states : List (String × JobState)
  pub scheduled : List (String × ℕ)
  pub counters : Dict ℤ
  pub sequence : ℕ
  pub servers : Dict ServerInfo
  pub recurring : Dict RecurringJobEntry
  pub continuations : List (String × ContinuationEntry)
  pub locks : Dict (String × ℕ)

-- SELECT … WHERE id = $1
abbrev pub find_row : String → List Row → Option Row
find_row id [] = none
find_row id (row ∷ rows) = let rest = find_row id rows in if row.id == id then some row else rest

-- UPDATE gfire.jobs … WHERE id = $1
abbrev pub update_rows : String → (Row → Row) → List Row → List Row
update_rows id f [] = []
update_rows id f (row ∷ rows) =
    let rest = update_rows id f rows in if row.id == id then f row ∷ rest else row ∷ rest

abbrev pub update : String → (Row → Row) → Tables → Tables
update id f t = record t { jobs = update_rows id f t.jobs }

-- INSERT INTO gfire.job_states
abbrev pub add_state : String → JobState → Tables → Tables
add_state id st t = record t { states = t.states ++ (id, st) ∷ [] }

-- DELETE FROM gfire.scheduled_jobs WHERE job_id = $1
abbrev pub drop_scheduled : String → List (String × ℕ) → List (String × ℕ)
drop_scheduled id [] = []
drop_scheduled id ((j, at) ∷ rows) =
    let rest = drop_scheduled id rows in if j == id then rest else (j, at) ∷ rest

abbrev pub unschedule : String → Tables → Tables
unschedule id t = record t { scheduled = drop_scheduled id t.scheduled }

-- INSERT INTO gfire.scheduled_jobs
abbrev pub add_schedule : String → ℕ → Tables → Tables
add_schedule id at t = record t { scheduled = t.scheduled ++ (id, at) ∷ [] }

abbrev value_of : Option ℤ → ℤ
value_of none = pos 0
value_of (some n) = n

-- bumpCounter
abbrev pub bump_counter : String → ℤ → Tables → Tables
bump_counter key delta t = record t {
  counters = insert key (value_of (t.counters key) +ℤ delta) t.counters;
}

-- How a COMMIT ends: with success, with an error and no effect, or with an error after its effect.
pub data Commit : Type 0 where
  committed refused unheard : Commit

-- A transaction's connection: whether its statement of that number gets an error, and how the
-- COMMIT ends. `locked` are the rows that other transactions have locked, and `meanwhile` is what
-- other transactions commit between a SELECT that locks nothing and the statement after it. `json` is
-- what a column of type JSONB keeps of a text, or none for a text that is no JSON.
pub record Session : Type 0 where
  pub fails : ℕ → Bool
  pub commit : Commit
  pub locked : String → Bool
  pub meanwhile : Tables → Tables
  pub json : List ℕ → Option (List ℕ)

-- A connection that holds, with no other transaction.
abbrev pub quiet : Session
quiet = record {
  fails = λ i. false;
  commit = committed;
  locked = λ id. false;
  meanwhile = λ t. t;
  json = λ b. some b;
}

module _ {A : Type 0} (w : Session) where
  -- A statement that writes, and what follows.
  abbrev pub exec :
      ℕ → (Tables → Tables) → Tables → (Tables → Result (A × Tables)) → Result (A × Tables)
  exec i f t next = if w.fails i then err err_backend else next (f t)

  -- The end of a transaction: COMMIT, or the deferred Rollback to the tables before it.
  abbrev pub finish : Tables → Result (A × Tables) → Result A × Tables
  finish before (ok (a, t)) = elim w.commit [
    | committed ↦ (ok a, t)
    | refused ↦ (err err_backend, before)
    | unheard ↦ (err err_backend, t)
  ]
  finish before (err e) = (err e, before)
  finish before fault = (fault, before)

  -- BEGIN is the statement 0.
  abbrev pub transaction : (Tables → Result (A × Tables)) → Tables → Result A × Tables
  transaction body t = if w.fails 0 then (err err_backend, t) else finish t (body t)
