-- ===== src/Postgres/Scheduled.antt =====
-- internal/storage/postgres/scheduled.go: the scheduled jobs.
use gfire.Prelude.{ℕ, ◌+◌, String, not, ◌&&◌, none, List, [], ◌∷◌, if◌then◌else◌, leb, ltb, take}
use gfire.Prelude.Int.{ℤ, pos, negsuc, pos_part, leb_ℤ}
use gfire.Prelude.Text.{◌<>◌}
use gfire.Prelude.Result.{Result, ok, err, fault, err_backend}
use gfire.Job.{Job, JobTicket, Runtime, state_enqueued, state_scheduled}
use gfire.Postgres.{
  Tables, Session, update, add_state, unschedule, add_schedule, bump_counter, exec, transaction,
}
use gfire.Postgres.Jobs.{plain_state, prepared, insert_job}
use gfire.Postgres.States.{scheduled_state, set_state}

-- The transaction of AddScheduled, for a job with its defaults.
abbrev pub add_scheduled_tx : Session → Runtime → ℕ → Job → Tables → Result (String × Tables)
add_scheduled_tx w rt at job t = insert_job w 1 job state_scheduled none (rt.clock 0) t (λ t1.
    exec w 2 (add_state job.id (scheduled_state rt at)) t1 (λ t2.
      exec w 3 (add_schedule job.id at) t2
        (λ t3. exec w 4 (bump_counter "scheduled" (pos 1)) t3 (λ t4. ok (job.id, t4)))))

-- Storage.AddScheduled
unfoldable pub add_scheduled : Session → Runtime → ℕ → Job → Tables → Result String × Tables
add_scheduled w rt at job t = transaction w (add_scheduled_tx w rt at (prepared rt job.queue job)) t

-- ORDER BY enqueue_at, by insertion
abbrev pub place : String → ℕ → List (String × ℕ) → List (String × ℕ)
place id at [] = (id, at) ∷ []
place id at ((j, u) ∷ rows) =
    let rest = place id at rows in if ltb u at then (j, u) ∷ rest else (id, at) ∷ (j, u) ∷ rows

-- SELECT … WHERE enqueue_at <= $1 ORDER BY enqueue_at FOR UPDATE SKIP LOCKED
abbrev pub due_rows : Session → ℕ → List (String × ℕ) → List (String × ℕ)
due_rows w now [] = []
due_rows w now ((id, at) ∷ rows) =
    let rest = due_rows w now rows in
    if leb at now && not (w.locked id) then place id at rest else rest

abbrev pub ids_of : List (String × ℕ) → List String
ids_of [] = []
ids_of ((id, at) ∷ rows) = id ∷ ids_of rows

abbrev pub due_ticket : String → JobTicket
due_ticket id = record { job_id = id; token = "sched-" <> id }

abbrev add_ticket : String → Result (List JobTicket × Tables) → Result (List JobTicket × Tables)
add_ticket id (ok (tickets, t)) = ok (due_ticket id ∷ tickets, t)
add_ticket id (err e) = err e
add_ticket id fault = fault

-- The loop over the due ids, from the statement `i` on.
unfoldable pub promote_all :
    Session → ℕ → ℕ → List String → Tables → Result (List JobTicket × Tables)
promote_all w i ts [] t = ok ([], t)
promote_all w i ts (id ∷ ids) t = exec w i (unschedule id) t (λ t1.
    exec w (i + 1) (update id (set_state state_enqueued ts)) t1 (λ t2.
      exec w (i + 2) (add_state id (plain_state state_enqueued "scheduled" ts)) t2 (λ t3.
        exec w (i + 3) (bump_counter "scheduled" (negsuc 0)) t3 (λ t4.
          exec w (i + 4) (bump_counter "enqueued" (pos 1)) t4
            (λ t5. add_ticket id (promote_all w (i + 5) ts ids t5))))))

abbrev pub batch_or_default : ℤ → ℕ
batch_or_default batch = if leb_ℤ batch (pos 0) then 100 else pos_part batch

-- The transaction of GetDueScheduled.
unfoldable pub get_due_scheduled_tx :
    Session → Runtime → ℕ → ℤ → Tables → Result (List JobTicket × Tables)
unfolding promote_all
get_due_scheduled_tx w rt now batch t =
    if w.fails 1
    then err err_backend
    else promote_all w 2 (rt.clock 0)
        (ids_of (take (batch_or_default batch) (due_rows w now t.scheduled))) t

-- Storage.GetDueScheduled
unfoldable pub get_due_scheduled :
    Session → Runtime → ℕ → ℤ → Tables → Result (List JobTicket) × Tables
unfolding get_due_scheduled_tx
get_due_scheduled w rt now batch t = transaction w (get_due_scheduled_tx w rt now batch) t

-- Storage.RemoveScheduled
unfoldable pub remove_scheduled : Session → String → Tables → Result (Unit {0}) × Tables
remove_scheduled w id t = if w.fails 0 then (err err_backend, t) else (ok tt, unschedule id t)
