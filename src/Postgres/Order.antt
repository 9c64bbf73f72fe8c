-- ===== src/Postgres/Order.antt =====
-- internal/storage/postgres/jobs.go: the job that a try of Dequeue takes.
use gfire.Prelude.{ℕ, ◌≡◌, ◌⊎◌, ◌≤◌, String, Bool, true, false, none, some, List, In, All}
use gfire.Postgres.{Row, Session, quiet}
use gfire.Postgres.Jobs.{is_waiting, oldest}

module _ (w : Session) (queues : List String) where
  -- No row of the list waits, or it is not older than the given token.
  abbrev pub NoneBefore : ℕ → List Row → Type 0
  NoneBefore token rows =
      All (λ row. (is_waiting w queues row ≡ false) ⊎ (token ≤ row.queue_token)) rows

  -- The row that the query finds, or that there is none.
  abbrev pub First : List Row → Type 0
  First rows =
      (row : Row) × (oldest w queues rows ≡ some row)
      × In row rows
      × (is_waiting w queues row ≡ true)
      × NoneBefore row.queue_token rows

  abbrev pub Nothing : List Row → Type 0
  Nothing rows = (oldest w queues rows ≡ none) × All (λ row. is_waiting w queues row ≡ false) rows

-- A connection that holds, while other transactions have locked some rows.
abbrev pub session : (String → Bool) → Session
session locked = record quiet { locked = locked }
