-- ===== src/Postgres/Atomic/Written.antt =====
-- internal/storage/postgres/jobs.go: the rows that the transaction of EnqueueIdempotent writes.
use gfire.Prelude.{
  ℕ, suc, ◌≡◌, ◌⊎◌, ◌≤◌, refl, String, Bool, true, false, none, some, List, [], ◌∷◌, ◌++◌, ◌==◌,
  if◌then◌else◌, inl, inr, Bool-cases, Option-cases, arith,
}
use gfire.Prelude.Int.{pos}
use gfire.Prelude.Dict.{eq_self, is_some}
use gfire.Job.{Job, JobState, Runtime, state_enqueued}
use gfire.Postgres.{
  Row, Tables, Session, Commit, committed, refused, unheard, find_row, add_state, bump_counter,
}
use gfire.Postgres.Jobs.{enqueue_job, insert_row, has_key, find_key, key_taken, plain_state}

-- How many rows have an idempotency key.
unfoldable pub count_key : String → List Row → ℕ
count_key key [] = 0
count_key key (row ∷ rows) =
    let rest = count_key key rows in if has_key key row.idempotency_key then suc rest else rest

-- Whether a job has a row in gfire.job_states.
unfoldable pub has_state : String → List (String × JobState) → Bool
has_state id [] = false
has_state id ((j, st) ∷ rows) = let rest = has_state id rows in if j == id then true else rest

count_key-none :
    (key : String) (rows : List Row) → find_key key rows ≡ none → count_key key rows ≡ 0
unfolding count_key
count_key-none key [] h = refl
count_key-none key (row ∷ rows) h = elim (Bool-cases (has_key key row.idempotency_key)) [
  | inl e ↦ cc (rw e at h)
  | inr e ↦ rw e (count_key-none key rows (rw e at h))
]

pub count_key-some :
    (key id : String) (rows : List Row) → find_key key rows ≡ some id → 1 ≤ count_key key rows
unfolding count_key
count_key-some key id [] h = cc
count_key-some key id (row ∷ rows) h = elim (Bool-cases (has_key key row.idempotency_key)) [
  | inl e ↦ rw e (omega arith)
  | inr e ↦ rw e (count_key-some key id rows (rw e at h))
]

-- A new row with a key that no other row has.
pub append_key :
    (key : String) (rows : List Row) (row : Row)
    → find_key key rows ≡ none
    → has_key key row.idempotency_key ≡ true
    → (find_key key (rows ++ row ∷ []) ≡ some row.id) × (count_key key (rows ++ row ∷ []) ≡ 1)
unfolding count_key
append_key key [] row h new = (rw new refl, rw new refl)
append_key key (x ∷ rows) row h new = elim (Bool-cases (has_key key x.idempotency_key)) [
  | inl e ↦ cc (rw e at h)
  | inr e ↦ let (p, q) = append_key key rows row (rw e at h) new in (rw e p, rw e q)
]

pub has_state-append :
    (id : String) (st : JobState) (rows : List (String × JobState))
    → has_state id (rows ++ (id, st) ∷ []) ≡ true
unfolding has_state
has_state-append id st [] = rw (eq_self id) refl
has_state-append id st ((j, x) ∷ rows) = elim (Bool-cases (j == id)) [
  | inl e ↦ rw e refl
  | inr e ↦ rw e (has_state-append id st rows)
]

-- At most one row has the key, and its job has a history.
abbrev pub IsWhole : String → Tables → Type 0
IsWhole key t =
    (count_key key t.jobs ≤ 1)
    × ((id : String) → find_key key t.jobs ≡ some id → has_state id t.states ≡ true)

-- The tables after all statements of the transaction of Enqueue.
abbrev pub all_written : Runtime → Job → String → List ℕ → Tables → Tables
all_written rt job key args t = bump_counter "enqueued" (pos 1) (
    add_state job.id (plain_state state_enqueued "" (rt.clock 0))
      (insert_row (record job { args = args }) state_enqueued (some key) (rt.clock 0) t))

commit-cases : (c : Commit) → (c ≡ committed) ⊎ (c ≡ refused) ⊎ (c ≡ unheard)
commit-cases committed = inl refl
commit-cases refused = inr (inl refl)
commit-cases unheard = inr (inr refl)

free_key :
    (key : String) (rows : List Row) → key_taken (some key) rows ≡ false → find_key key rows ≡ none
free_key key rows h = elim (Option-cases (find_key key rows)) [
  | inl e ↦ e
  | inr (x, e) ↦ cc (rw e at h)
]

-- Whatever statement fails and however the COMMIT ends, none of the transaction's rows is written,
-- or all of them are and no row had the key before.
pub enqueue_job_whole :
    (w : Session) (rt : Runtime) (job : Job) (key : String) (t : Tables)
    → ((enqueue_job w rt job (some key) t).1 ≡ t)
      ⊎ ((args : List ℕ) × (find_key key t.jobs ≡ none)
          × ((enqueue_job w rt job (some key) t).1 ≡ all_written rt job key args t))
enqueue_job_whole w rt job key t = elim (Bool-cases (w.fails 0)) [
  | inl e ↦ inl (rw e refl)
  | inr f0 ↦ elim (Bool-cases (is_some (find_row job.id t.jobs))) [
    | inl e ↦ inl (rw (f0, e) refl)
    | inr r ↦ elim (Bool-cases (key_taken (some key) t.jobs)) [
      | inl e ↦ inl (rw (f0, r, e) refl)
      | inr k ↦ elim (Option-cases (w.json job.args)) [
        | inl e ↦ inl (rw (f0, r, k, e) refl)
        | inr (args, j) ↦ elim (Bool-cases (w.fails 1)) [
          | inl e ↦ inl (rw (f0, r, k, j, e) refl)
          | inr f1 ↦ elim (Bool-cases (w.fails 2)) [
            | inl e ↦ inl (rw (f0, r, k, j, f1, e) refl)
            | inr f2 ↦ elim (Bool-cases (w.fails 3)) [
              | inl e ↦ inl (rw (f0, r, k, j, f1, f2, e) refl)
              | inr f3 ↦ elim (commit-cases w.commit) [
                | inl e ↦ inr (args, free_key key t.jobs k, rw (f0, r, k, j, f1, f2, f3, e) refl)
                | inr (inl e) ↦ inl (rw (f0, r, k, j, f1, f2, f3, e) refl)
                | inr (inr e) ↦
                    inr (args, free_key key t.jobs k, rw (f0, r, k, j, f1, f2, f3, e) refl)
              ]
            ]
          ]
        ]
      ]
    ]
  ]
]
