-- ===== src/Postgres/Atomic.antt =====
-- internal/storage/postgres/jobs.go: EnqueueIdempotent on a connection that fails, and again.
pub mod Written
use gfire.Postgres.Atomic.Written.{
  count_key, has_state, IsWhole, all_written, count_key-some, append_key, has_state-append,
  enqueue_job_whole,
}
use gfire.Prelude.{
  ℕ, suc, ◌≡◌, ◌≢◌, ◌⊎◌, ◌≤◌, refl, sym, ap, subst, ◌∙◌, String, Bool, true, false, none, some,
  List, [], ◌∷◌, ◌++◌, ◌==◌, if◌then◌else◌, inl, inr, Bool-cases, Option-cases, arith,
}
use gfire.Prelude.Int.{pos}
use gfire.Prelude.Dict.{eq_self, ne_false, is_some, some_path}
use gfire.Prelude.Result.{Result, ok, err, fault}
use gfire.Job.{Job, JobState, Runtime, state_enqueued}
use gfire.Postgres.{
  Row, Tables, Session, Commit, committed, refused, unheard, quiet, find_row, add_state,
  bump_counter,
}
use gfire.Postgres.Jobs.{
  enqueue_idempotent, enqueue_job, prepared, insert_row, has_key, find_key, key_taken, existing,
  null_if_empty, created, plain_state,
}

created_tables : (o : Result String × Tables) → (created o).1 ≡ o.1
created_tables (ok id, t) = refl
created_tables (err e, t) = refl
created_tables (fault, t) = refl

null_if_empty_key : (key : String) → key ≢ "" → null_if_empty key ≡ some key
null_if_empty_key key h = rw (ne_false key "" h) refl

existing_inv :
    (w : Session) (key id : String) (t : Tables)
    → existing w key t ≡ some id
    → find_key key t.jobs ≡ some id
existing_inv w key id t h = elim (Bool-cases (key == "")) [
  | inl e ↦ cc (rw e at h)
  | inr e ↦ elim (Bool-cases (w.fails 4)) [ inl f ↦ cc (rw (e, f) at h) | inr f ↦ rw (e, f) at h ]
]

-- A connection that holds, to a server that reads JSON as it did for `w`, with no other client.
abbrev pub again : Session → Session
again w = record quiet { json = w.json }

-- The call answers with the id of the one row that has the key, and its job has a history.
abbrev pub IsServed : String → Result (String × Bool) × Tables → Type 0
IsServed key o =
    (id : String) × (b : Bool) × (u : Tables) × (o ≡ (ok (id, b), u))
    × (find_key key u.jobs ≡ some id)
    × (count_key key u.jobs ≡ 1)
    × (has_state id u.states ≡ true)

-- A transaction on it whose row is not refused.
all_run :
    (w : Session) (rt : Runtime) (job : Job) (key : String) (args : List ℕ) (t : Tables)
    → find_key key t.jobs ≡ none
    → find_row job.id t.jobs ≡ none
    → w.json job.args ≡ some args
    → enqueue_job (again w) rt job (some key) t ≡ (ok job.id, all_written rt job key args t)
all_run w rt job key args t e fresh json = rw (fresh, e, json) refl

module _ (w : Session) (rt : Runtime) (queue : String) (job : Job)
    (named : job.idempotency_key ≢ "") where
  -- A call that finds the key.
  enqueue_idempotent_known :
      (id : String) (t : Tables)
      → find_key job.idempotency_key t.jobs ≡ some id
      → IsWhole job.idempotency_key t
      → IsServed job.idempotency_key (enqueue_idempotent (again w) rt queue job t)
  unfolding enqueue_idempotent
  enqueue_idempotent_known id t e whole = (
    id,
    false,
    t,
    rw (ne_false job.idempotency_key "" named, e, enqueue_idempotent) refl,
    e,
    omega (arith, whole.0, count_key-some job.idempotency_key id t.jobs e),
    whole.1 id e,
  )

  -- A call that finds no row with the key goes on to its transaction.
  goes_on :
      (v : Session) (t : Tables)
      → existing v job.idempotency_key t ≡ none
      → enqueue_idempotent v rt queue job t
        ≡ created
            (enqueue_job v rt (prepared rt queue job) (some job.idempotency_key) (v.meanwhile t))
  unfolding enqueue_idempotent
  goes_on v t e =
      rw (e, enqueue_idempotent)
        (ap (λ k. created (enqueue_job v rt (prepared rt queue job) k (v.meanwhile t)))
          (null_if_empty_key job.idempotency_key named))

  -- A call that finds no row with the key, and whose own row is not refused.
  enqueue_idempotent_new :
      (args : List ℕ) (t : Tables)
      → find_key job.idempotency_key t.jobs ≡ none
      → find_row (prepared rt queue job).id t.jobs ≡ none
      → w.json (prepared rt queue job).args ≡ some args
      → IsServed job.idempotency_key (enqueue_idempotent (again w) rt queue job t)
  unfolding enqueue_idempotent
  enqueue_idempotent_new args t e fresh json =
      let (found, once) = append_key job.idempotency_key t.jobs _ e (eq_self job.idempotency_key) in
      (
        (prepared rt queue job).id,
        true,
        all_written rt (prepared rt queue job) job.idempotency_key args t,
        goes_on (again w) t (rw (ne_false job.idempotency_key "" named) e)
            ∙ ap created
                (all_run w rt (prepared rt queue job) job.idempotency_key args t e fresh json),
        found,
        once,
        has_state-append (prepared rt queue job).id _ t.states,
      )

-- EnqueueIdempotent with a key that is not empty, whatever statement fails, however the COMMIT
-- ends and whatever other transactions commit meanwhile, and then the same call again on a
-- connection that holds, before any other transaction. When at most one row had the key, with a
-- history of its job, before the first call and after what others have committed meanwhile, and
-- the id of the second call is new and its args are JSON, the second call succeeds: one row has
-- the key, the call answers with its id, and its job has a history.
pub enqueue_idempotent_retried :
    (w : Session) (rt rt' : Runtime) (queue : String) (job : Job) (args : List ℕ) (t : Tables)
    → job.idempotency_key ≢ ""
    → IsWhole job.idempotency_key t
    → IsWhole job.idempotency_key (w.meanwhile t)
    → find_row (prepared rt' queue job).id (w.meanwhile t).jobs ≡ none
    → w.json (prepared rt' queue job).args ≡ some args
    → IsServed job.idempotency_key
        (enqueue_idempotent (again w) rt' queue job (enqueue_idempotent w rt queue job t).1)
unfolding enqueue_idempotent
enqueue_idempotent_retried w rt rt' queue job args t named before after fresh json =
    elim (Option-cases (existing w job.idempotency_key t)) [
      | inr (id, e) ↦ at t (rw (e, enqueue_idempotent) refl) (
          enqueue_idempotent_known w rt' queue job named id t
            (existing_inv w job.idempotency_key id t e) before)
      | inl e ↦ elim (enqueue_job_whole w rt (prepared rt queue job) key (w.meanwhile t)) [
        | inl same ↦
            at (w.meanwhile t) (tables e ∙ same)
              (elim (Option-cases (find_key key (w.meanwhile t).jobs)) [
                | inl f ↦
                    enqueue_idempotent_new w rt' queue job named args (w.meanwhile t) f fresh json
                | inr (id, f) ↦
                    enqueue_idempotent_known w rt' queue job named id (w.meanwhile t) f after
              ])
        | inr (args', f, same) ↦
            at (all_written rt (prepared rt queue job) key args' (w.meanwhile t)) (tables e ∙ same)
              (written args' f)
      ]
    ]
  where
    key : String
    key = job.idempotency_key

    at :
        (u : Tables)
        → (enqueue_idempotent w rt queue job t).1 ≡ u
        → IsServed key (enqueue_idempotent (again w) rt' queue job u)
        → IsServed key
            (enqueue_idempotent (again w) rt' queue job (enqueue_idempotent w rt queue job t).1)
    at u e h = subst (λ v. IsServed key (enqueue_idempotent (again w) rt' queue job v)) (sym e) h

    tables :
        existing w key t ≡ none
        → (enqueue_idempotent w rt queue job t).1
          ≡ (enqueue_job w rt (prepared rt queue job) (some key) (w.meanwhile t)).1
    tables e =
        ap (λ o. o.1) (goes_on w rt queue job named w t e)
        ∙ created_tables (enqueue_job w rt (prepared rt queue job) (some key) (w.meanwhile t))

    written :
        (args' : List ℕ)
        → find_key key (w.meanwhile t).jobs ≡ none
        → IsServed key (
            enqueue_idempotent
              (again w)
              rt'
              queue
              job
              (all_written rt (prepared rt queue job) key args' (w.meanwhile t)))
    written args' f =
        let (found, once) = append_key key (w.meanwhile t).jobs _ f (eq_self key) in
        enqueue_idempotent_known w rt' queue job named (prepared rt queue job).id
          (all_written rt (prepared rt queue job) key args' (w.meanwhile t)) found
          (
            omega (arith, once),
            λ id e.
                subst
                  (λ x.
                    has_state x
                      (all_written rt (prepared rt queue job) key args' (w.meanwhile t)).states
                    ≡ true)
                  (some_path (prepared rt queue job).id id (sym found ∙ e))
                  (has_state-append (prepared rt queue job).id _ (w.meanwhile t).states),
          )
