-- ===== src/Postgres/Agreement.antt =====
-- internal/storage/postgres against internal/storage/memory/memory.go: single transitions.
use gfire.Prelude.{
  ℕ, ◌≡◌, refl, sym, ap, subst, ◌∙◌, String, none, some, List, ◌==◌, if◌then◌else◌, inl, inr, last?,
  Bool-cases, Option-cases,
}
use gfire.Prelude.Int.{pos}
use gfire.Prelude.Dict.{is_some}
use gfire.Prelude.Result.{
  Error, Result, ok, err, err_not_found, err_state_conflict, err_terminal_state,
}
use gfire.Job.{
  JobState, Runtime, irreversible_states, state_failed, state_enqueued, state_deleted,
  state_scheduled,
}
use gfire.Memory.{Store}
use gfire.Memory.States as Memory
use gfire.Memory.Queues as Queues
use gfire.Memory.Moves.{Transition, answer, next}
use gfire.Memory.Paired.{Paired, requeue_absent, requeue_final, requeue_moves}
use gfire.Postgres.{
  Row, Tables, quiet, find_row, update, add_state, bump_counter, add_schedule, unschedule, finish,
}
use gfire.Postgres.Jobs.{plain_state}
use gfire.Postgres.States.{
  apply_state, delete_job, requeue, schedule_retry, apply_row, move_row, set_state, stamped,
  bump_for_state, counter_for, scheduled_state, mark,
}
use gfire.Postgres.Represents.{Matches, Represents, Represents-moved, names_of}

abbrev pub on_postgres : Transition → Tables → Result (Unit {0}) × Tables
on_postgres (Transition.apply rt id expected st) t = apply_state quiet rt id expected st t
on_postgres (Transition.delete rt id) t = delete_job quiet rt id t
on_postgres (Transition.retry rt id at) t = schedule_retry quiet rt id at t
on_postgres (Transition.requeue rt id reason) t = requeue quiet rt id reason t

-- Two outcomes agree: the same answer, and the same histories afterwards.
abbrev pub Agrees : Store → Result (Unit {0}) × Tables → Result Store → Type 0
Agrees s o m = (o.0 ≡ answer m) × Represents o.1 (next m s).job_states

refused :
    (s : Store) (o : Result (Unit {0}) × Tables) (m : Result Store) (e : Error) (t : Tables)
    → o ≡ (err e, t)
    → m ≡ err e
    → Represents t s.job_states
    → Agrees s o m
refused s o m e t p q rep =
    subst (Agrees s o) (sym q) (subst (λ x. Agrees s x (err e)) (sym p) (refl, rep))

accepted :
    (s : Store) (o : Result (Unit {0}) × Tables) (m : Result Store) (t : Tables) (s' : Store)
    → o ≡ (ok tt, t)
    → m ≡ ok s'
    → Represents t s'.job_states
    → Agrees s o m
accepted s o m t s' p q rep =
    subst (Agrees s o) (sym q) (subst (λ x. Agrees s x (ok s')) (sym p) (refl, rep))

-- A counter changes neither the jobs nor the states.
bumped :
    (key : String) (t : Tables)
    → (t' : Tables) × (bump_for_state quiet key t ≡ ok (tt, t'))
      × (t'.jobs ≡ t.jobs)
      × (t'.states ≡ t.states)
bumped key t = elim (Bool-cases (key == "")) [
  | inl e ↦ (t, rw (bump_for_state, e) refl, refl, refl)
  | inr e ↦ (bump_counter key (pos 1) t, rw (bump_for_state, e) refl, refl, refl)
]

module _ (rt : Runtime) (id : String) (t : Tables) (s : Store)
    (rep : Represents t s.job_states) where
  -- What the two stores know of a job that is there.
  abbrev Current : List JobState → Type 0
  Current states =
      (row : Row) × (st : JobState) × (find_row id t.jobs ≡ some row)
      × (last? states ≡ some st)
      × (row.state ≡ st.name)

  absent : s.job_states id ≡ none → find_row id t.jobs ≡ none
  absent e = rw e at (rep id)

  present : (states : List JobState) → s.job_states id ≡ some states → Current states
  present states e = cut (rw e at (rep id))
    where
      cut : Matches (some states) (find_row id t.jobs) (names_of id t.states) → Current states
      cut (row, st, found, last, same, names) = (row, st, found, last, same)

  pub apply_agrees :
      (expected : String) (st : JobState)
      → Agrees s (apply_state quiet rt id expected st t) (Memory.apply_state rt id expected st s)
  unfolding apply_state Memory.apply_state
  apply_agrees expected st = elim (Option-cases (s.job_states id)) [
    | inl e ↦
        refused s (apply_state quiet rt id expected st t) (Memory.apply_state rt id expected st s)
          err_not_found t (rw (apply_state, absent e) refl) (rw (Memory.apply_state, e) refl) rep
    | inr (states, e) ↦ found states e (present states e)
  ]
    where
      found :
          (states : List JobState)
          → s.job_states id ≡ some states
          → Current states
          → Agrees s
              (apply_state quiet rt id expected st t)
              (Memory.apply_state rt id expected st s)
      found states e (row, current, f, last, same) = elim (Bool-cases (row.state == expected)) [
        | inr g ↦
            refused s (apply_state quiet rt id expected st t)
              (Memory.apply_state rt id expected st s) err_state_conflict t
              (rw (apply_state, f, g) refl)
              (rw (Memory.apply_state, e, last, ap (λ x. x == expected) (sym same) ∙ g) refl) rep
        | inl g ↦
            let b =
              bumped (counter_for st.name)
                (add_state id (stamped rt st) (update id (apply_row (stamped rt st)) t)) in
            accepted s (apply_state quiet rt id expected st t)
              (Memory.apply_state rt id expected st s) b.0
              (Memory.record_state rt id expected st states s)
              (rw (apply_state, f, g) (ap (finish quiet t) b.1))
              (rw (Memory.apply_state, e, last, ap (λ x. x == expected) (sym same) ∙ g) refl)
              (Represents-moved (apply_row (stamped rt st)) (λ row. refl) t b.0 s.job_states id
                states (stamped rt st) row rep e f refl b.2 b.3 (Memory.stamped rt st) refl)
      ]

  pub delete_agrees : Agrees s (delete_job quiet rt id t) (Memory.delete_job rt id s)
  unfolding delete_job Memory.delete_job
  delete_agrees = elim (Option-cases (s.job_states id)) [
    | inl e ↦
        refused s (delete_job quiet rt id t) (Memory.delete_job rt id s) err_not_found t
          (rw (delete_job, absent e) refl) (rw (Memory.delete_job, e) refl) rep
    | inr (states, e) ↦ found states e (present states e)
  ]
    where
      found :
          (states : List JobState)
          → s.job_states id ≡ some states
          → Current states
          → Agrees s (delete_job quiet rt id t) (Memory.delete_job rt id s)
      found states e (row, current, f, last, same) =
          elim (Bool-cases (irreversible_states row.state)) [
            | inl g ↦
                refused s (delete_job quiet rt id t) (Memory.delete_job rt id s) err_terminal_state
                  t (rw (delete_job, f, g) refl)
                  (rw (Memory.delete_job, e, last, ap irreversible_states (sym same) ∙ g) refl) rep
            | inr g ↦
                let st : JobState = plain_state state_deleted "" (rt.clock 0) in
                let t' : Tables =
                  add_state id st (update id (move_row state_deleted (rt.clock 0)) t) in
                accepted s (delete_job quiet rt id t) (Memory.delete_job rt id s) t'
                  (Memory.mark_deleted rt id states s)
                  (rw (delete_job, f, g)
                    (ap
                      (λ o. finish quiet t (
                        if is_some o
                        then mark quiet rt id state_deleted "" t
                        else err err_not_found))
                      f))
                  (rw (Memory.delete_job, e, last, ap irreversible_states (sym same) ∙ g) refl)
                  (Represents-moved (move_row state_deleted (rt.clock 0)) (λ row. refl) t t'
                    s.job_states id states st row rep e f refl refl refl
                    (Memory.deleted_state (rt.clock 0)) refl)
          ]

  pub retry_agrees :
      (at : ℕ) → Agrees s (schedule_retry quiet rt id at t) (Memory.schedule_retry rt id at s)
  unfolding schedule_retry Memory.schedule_retry
  retry_agrees at = elim (Option-cases (s.job_states id)) [
    | inl e ↦
        refused s (schedule_retry quiet rt id at t) (Memory.schedule_retry rt id at s) err_not_found
          t (rw (schedule_retry, absent e) refl) (rw (Memory.schedule_retry, e) refl) rep
    | inr (states, e) ↦ found states e (present states e)
  ]
    where
      found :
          (states : List JobState)
          → s.job_states id ≡ some states
          → Current states
          → Agrees s (schedule_retry quiet rt id at t) (Memory.schedule_retry rt id at s)
      found states e (row, current, f, last, same) = elim (Bool-cases (row.state == state_failed)) [
        | inr g ↦
            refused s (schedule_retry quiet rt id at t) (Memory.schedule_retry rt id at s)
              err_state_conflict t (rw (schedule_retry, f, g) refl)
              (rw (Memory.schedule_retry, e, last, ap (λ x. x == state_failed) (sym same) ∙ g) refl)
              rep
        | inl g ↦
            let st : JobState = scheduled_state rt at in
            let t' : Tables = bump_counter "scheduled" (pos 1) (
              add_schedule id at (
                unschedule id
                  (add_state id st (update id (set_state state_scheduled (rt.clock 0)) t)))) in
            accepted s (schedule_retry quiet rt id at t) (Memory.schedule_retry rt id at s) t'
              (Memory.add_retry rt id at states s) (rw (schedule_retry, f, g) refl)
              (rw (Memory.schedule_retry, e, last, ap (λ x. x == state_failed) (sym same) ∙ g) refl)
              (Represents-moved (set_state state_scheduled (rt.clock 0)) (λ row. refl) t t'
                s.job_states id states st row rep e f refl refl refl
                (Memory.scheduled_state rt at (rt.clock 0)) refl)
      ]

module _ (rt : Runtime) (id reason : String) (t : Tables) (s : Store) where
  pub requeue_agrees :
      Represents t s.job_states
      → Paired s
      → Agrees s (requeue quiet rt id reason t) (Queues.requeue rt id reason s)
  unfolding requeue
  requeue_agrees rep pair = elim (Option-cases (s.job_states id)) [
    | inl e ↦
        refused s (requeue quiet rt id reason t) (Queues.requeue rt id reason s) err_not_found t
          (rw (requeue, absent rt id t s rep e) refl) (requeue_absent s pair rt id reason e) rep
    | inr (states, e) ↦ found states e (present rt id t s rep states e)
  ]
    where
      found :
          (states : List JobState)
          → s.job_states id ≡ some states
          → Current rt id t s rep states
          → Agrees s (requeue quiet rt id reason t) (Queues.requeue rt id reason s)
      found states e (row, current, f, last, same) =
          elim (Bool-cases (irreversible_states row.state)) [
            | inl g ↦
                refused s (requeue quiet rt id reason t) (Queues.requeue rt id reason s)
                  err_terminal_state t (rw (requeue, f, g) refl)
                  (requeue_final s pair rt id reason states current e last
                    (ap irreversible_states (sym same) ∙ g))
                  rep
            | inr g ↦
                let moved =
                  requeue_moves s pair rt id reason states current e last
                    (ap irreversible_states (sym same) ∙ g) in
                let st : JobState = plain_state state_enqueued reason (rt.clock 0) in
                let t' : Tables =
                  add_state id st (update id (move_row state_enqueued (rt.clock 0)) t) in
                accepted s (requeue quiet rt id reason t) (Queues.requeue rt id reason s) t' moved.0
                  (rw (requeue, f, g)
                    (ap
                      (λ o. finish quiet t (
                        if is_some o
                        then mark quiet rt id state_enqueued reason t
                        else err err_not_found))
                      f))
                  moved.1
                  (subst (Represents t') (sym moved.3) (
                    Represents-moved (move_row state_enqueued (rt.clock 0)) (λ row. refl) t t'
                      s.job_states id states st row rep e f refl refl refl
                      (Queues.requeued_state reason (rt.clock 0)) refl))
          ]
