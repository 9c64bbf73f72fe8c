-- ===== src/Postgres/Hazards.antt =====
-- internal/storage/postgres: a deletion and the schedule.
use gfire.Prelude.{ℕ, ◌≡◌, refl, ap, String, true, false, some, [], ◌∷◌, leb, take, if◌then◌else◌}
use gfire.Prelude.Int.{pos}
use gfire.Prelude.Dict.{is_some}
use gfire.Prelude.Result.{ok, err, err_not_found}
use gfire.Job.{Runtime, irreversible_states, state_deleted, state_enqueued}
use gfire.Postgres.{Row, Tables, quiet, find_row, update, add_state, finish}
use gfire.Postgres.Jobs.{plain_state}
use gfire.Postgres.States.{delete_job, move_row, set_state, mark}
use gfire.Postgres.Scheduled.{
  get_due_scheduled, get_due_scheduled_tx, promote_all, due_ticket, due_rows, ids_of,
}
use gfire.Postgres.Represents.{find_row-update_rows}

module _ (rt rt' : Runtime) (id : String) (at now : ℕ) (row : Row) (t : Tables) where
  -- A job that waits for its time and is deleted comes back: where it is the only one on the
  -- schedule and its time has come, GetDueScheduled after DeleteJob gives out a ticket for it and
  -- its state is Enqueued again.
  pub deleted_row_returns :
      find_row id t.jobs ≡ some row
      → irreversible_states row.state ≡ false
      → t.scheduled ≡ (id, at) ∷ []
      → leb at now ≡ true
      → (t1 : Tables) × (t2 : Tables) × (delete_job quiet rt id t ≡ (ok tt, t1))
        × (find_row id t1.jobs ≡ some (move_row state_deleted (rt.clock 0) row))
        × (get_due_scheduled quiet rt' now (pos 100) t1 ≡ (ok (due_ticket id ∷ []), t2))
        × (find_row id t2.jobs
            ≡ some
                (set_state state_enqueued (rt'.clock 0) (move_row state_deleted (rt.clock 0) row)))
  unfolding delete_job get_due_scheduled get_due_scheduled_tx promote_all
  deleted_row_returns f g s l =
      let t1 : Tables =
        add_state id (plain_state state_deleted "" (rt.clock 0))
          (update id (move_row state_deleted (rt.clock 0)) t) in
      let marked : find_row id t1.jobs ≡ some (move_row state_deleted (rt.clock 0) row) =
        find_row-update_rows (move_row state_deleted (rt.clock 0)) (λ r. refl) id t.jobs row f in
      let due : ids_of (take 100 (due_rows quiet now t.scheduled)) ≡ id ∷ [] = rw (s, l) refl in
      (
        t1,
        (get_due_scheduled quiet rt' now (pos 100) t1).1,
        rw (delete_job, f, g)
            (ap
              (λ o.
                finish quiet t
                  (if is_some o then mark quiet rt id state_deleted "" t else err err_not_found))
              f),
        marked,
        rw due refl,
        rw due (
            find_row-update_rows (set_state state_enqueued (rt'.clock 0)) (λ r. refl) id t1.jobs
              (move_row state_deleted (rt.clock 0) row) marked),
      )
