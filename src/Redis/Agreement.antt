-- ===== src/Redis/Agreement.antt =====
-- internal/storage/redis against internal/storage/memory/memory.go: single transitions.
use gfire.Prelude.{
  ℕ, ◌≡◌, refl, sym, subst, String, none, some, List, [], ◌∷◌, ◌++◌, ◌==◌, inl, inr, last?,
  Bool-cases, Option-cases,
}
use gfire.Prelude.Dict.{Dict, insert}
use gfire.Prelude.Result.{
  Error, Result, ok, err, err_not_found, err_state_conflict, err_terminal_state,
}
use gfire.Job.{JobState, Runtime, irreversible_states, state_failed, state_deleted}
use gfire.Memory.{Store}
use gfire.Memory.States as Memory
use gfire.Memory.Queues as Queues
use gfire.Memory.Moves.{Transition, answer, next}
use gfire.Memory.Paired.{Paired, requeue_absent, requeue_final, requeue_moves}
use gfire.Redis.{Redis, Command, quiet, ask, apply_all}
use gfire.Redis.Keys.{job_key, job_states_key}
use gfire.Redis.Codec.{Codec}
use gfire.Redis.Jobs.{plain_state, queue_of}
use gfire.Redis.Queues.{requeue, requeue_commands}
use gfire.Redis.States.{
  apply_state, apply_state_script, delete_job, schedule_retry, apply_commands, delete_commands,
  retry_commands, stamped, retry_state,
}
use gfire.Redis.Laws.{effects, view-apply_all}
use gfire.Redis.Represents.{Matches, Represents, Records, Represents-Records}
use gfire.Redis.Transitions.{
  apply_commands-Records, delete_commands-Records, retry_commands-Records, requeue_commands-Records,
}

module _ (r : Redis) (c : Codec) where
  abbrev pub on_redis : Transition → r.Db → Result (Unit {0}) × r.Db
  on_redis (Transition.apply rt id expected st) d = apply_state r c quiet rt id expected st d
  on_redis (Transition.delete rt id) d = delete_job r c quiet rt id d
  on_redis (Transition.retry rt id at) d = schedule_retry r c quiet rt id at d
  on_redis (Transition.requeue rt id reason) d = requeue r c quiet rt id reason d

  abbrev pub Holds : r.Db → Dict (List JobState) → Type 0
  Holds d m = Represents c.marshal_state (r.view d) m

  -- Two outcomes agree: the same answer, and the same histories afterwards.
  abbrev pub Agrees : Store → Result (Unit {0}) × r.Db → Result Store → Type 0
  Agrees s o m = (o.0 ≡ answer m) × Holds o.1 (next m s).job_states

  recorded :
      (d : r.Db) (m : Dict (List JobState)) (id : String) (states : List JobState) (st : JobState)
      (cs : List Command)
      → Holds d m
      → m id ≡ some states
      → Records c.marshal_state id st (r.view d) (effects cs (r.view d))
      → Holds (apply_all r cs d) (insert id (states ++ st ∷ []) m)
  recorded d m id states st cs rep e h =
      subst (λ v. Represents c.marshal_state v (insert id (states ++ st ∷ []) m))
        (sym (view-apply_all r cs d))
        (Represents-Records c.marshal_state (r.view d) (effects cs (r.view d)) m id states st rep e
          h)

  refused :
      (s : Store) (o : Result (Unit {0}) × r.Db) (m : Result Store) (e : Error) (d : r.Db)
      → o ≡ (err e, d)
      → m ≡ err e
      → Holds d s.job_states
      → Agrees s o m
  refused s o m e d p q rep =
      subst (Agrees s o) (sym q) (subst (λ x. Agrees s x (err e)) (sym p) (refl, rep))

  accepted :
      (s : Store) (o : Result (Unit {0}) × r.Db) (m : Result Store) (d : r.Db) (s' : Store)
      → o ≡ (ok tt, d)
      → m ≡ ok s'
      → Holds d s'.job_states
      → Agrees s o m
  accepted s o m d s' p q rep =
      subst (Agrees s o) (sym q) (subst (λ x. Agrees s x (ok s')) (sym p) (refl, rep))

  module _ (rt : Runtime) (id : String) (d : r.Db) (s : Store) (rep : Holds d s.job_states) where
    absent : s.job_states id ≡ none → (f : String) → (r.view d).hashes (job_key id) f ≡ none
    absent e = cut (rw e at (rep id))
      where
        cut :
            Matches c.marshal_state none
              ((r.view d).hashes (job_key id))
              ((r.view d).lists (job_states_key id))
            → (f : String) → (r.view d).hashes (job_key id) f ≡ none
        cut (h, l) = h

    -- The last state of a job that is there, as both stores know it.
    abbrev Current : List JobState → Type 0
    Current states =
        (st : JobState) × (last? states ≡ some st)
        × ((r.view d).hashes (job_key id) "state" ≡ some st.name)

    present : (states : List JobState) → s.job_states id ≡ some states → Current states
    present states e = cut (rw e at (rep id))
      where
        cut :
            Matches c.marshal_state
              (some states)
              ((r.view d).hashes (job_key id))
              ((r.view d).lists (job_states_key id))
            → Current states
        cut (st, last, name, l) = (st, last, name)

    pub apply_agrees :
        (expected : String) (st : JobState)
        → Agrees s
            (apply_state r c quiet rt id expected st d)
            (Memory.apply_state rt id expected st s)
    unfolding apply_state apply_state_script Memory.apply_state
    apply_agrees expected st = elim (Option-cases (s.job_states id)) [
      | inl e ↦
          refused s (apply_state r c quiet rt id expected st d)
            (Memory.apply_state rt id expected st s) err_not_found d
            (rw (apply_state_script, absent e "state") refl) (rw (Memory.apply_state, e) refl) rep
      | inr (states, e) ↦ found states e (present states e)
    ]
      where
        found :
            (states : List JobState)
            → s.job_states id ≡ some states
            → Current states
            → Agrees s
                (apply_state r c quiet rt id expected st d)
                (Memory.apply_state rt id expected st s)
        found states e (current, last, name) = elim (Bool-cases (current.name == expected)) [
          | inl f ↦
              accepted s (apply_state r c quiet rt id expected st d)
                (Memory.apply_state rt id expected st s)
                (apply_all r (apply_commands r c id expected (stamped r c rt st)) d)
                (Memory.record_state rt id expected st states s)
                (rw (apply_state_script, name, f) refl) (rw (Memory.apply_state, e, last, f) refl)
                (recorded d s.job_states id states (stamped r c rt st)
                  (apply_commands r c id expected (stamped r c rt st)) rep e
                  (apply_commands-Records r c id expected (stamped r c rt st) (r.view d)))
          | inr f ↦
              refused s (apply_state r c quiet rt id expected st d)
                (Memory.apply_state rt id expected st s) err_state_conflict d
                (rw (apply_state_script, name, f) refl) (rw (Memory.apply_state, e, last, f) refl)
                rep
        ]

    pub delete_agrees : Agrees s (delete_job r c quiet rt id d) (Memory.delete_job rt id s)
    unfolding delete_job Memory.delete_job
    delete_agrees = elim (Option-cases (s.job_states id)) [
      | inl e ↦
          refused s (delete_job r c quiet rt id d) (Memory.delete_job rt id s) err_not_found d
            (rw (r.exists_none (job_key id) d (absent e)) refl) (rw (Memory.delete_job, e) refl) rep
      | inr (states, e) ↦ found states e (present states e)
    ]
      where
        found :
            (states : List JobState)
            → s.job_states id ≡ some states
            → Current states
            → Agrees s (delete_job r c quiet rt id d) (Memory.delete_job rt id s)
        found states e (current, last, name) =
            elim (Bool-cases (irreversible_states current.name)) [
              | inl f ↦
                  refused s (delete_job r c quiet rt id d) (Memory.delete_job rt id s)
                    err_terminal_state d
                    (rw
                      (
                        delete_job,
                        r.exists_some (job_key id) "state" current.name d name,
                        ask,
                        name,
                        f,
                      )
                      refl)
                    (rw (Memory.delete_job, e, last, f) refl) rep
              | inr f ↦
                  accepted s (delete_job r c quiet rt id d) (Memory.delete_job rt id s)
                    (apply_all r (delete_commands r c rt id) d) (Memory.mark_deleted rt id states s)
                    (rw
                      (
                        delete_job,
                        r.exists_some (job_key id) "state" current.name d name,
                        ask,
                        name,
                        f,
                      )
                      refl)
                    (rw (Memory.delete_job, e, last, f) refl)
                    (recorded d s.job_states id states (plain_state state_deleted "" (rt.clock 0))
                      (delete_commands r c rt id) rep e
                      (delete_commands-Records r c rt id (r.view d)))
            ]

    pub retry_agrees :
        (at : ℕ) → Agrees s (schedule_retry r c quiet rt id at d) (Memory.schedule_retry rt id at s)
    unfolding schedule_retry Memory.schedule_retry
    retry_agrees at = elim (Option-cases (s.job_states id)) [
      | inl e ↦
          refused s (schedule_retry r c quiet rt id at d) (Memory.schedule_retry rt id at s)
            err_not_found d (rw (r.exists_none (job_key id) d (absent e)) refl)
            (rw (Memory.schedule_retry, e) refl) rep
      | inr (states, e) ↦ found states e (present states e)
    ]
      where
        found :
            (states : List JobState)
            → s.job_states id ≡ some states
            → Current states
            → Agrees s (schedule_retry r c quiet rt id at d) (Memory.schedule_retry rt id at s)
        found states e (current, last, name) = elim (Bool-cases (current.name == state_failed)) [
          | inr f ↦
              refused s (schedule_retry r c quiet rt id at d) (Memory.schedule_retry rt id at s)
                err_state_conflict d
                (rw
                  (
                    schedule_retry,
                    r.exists_some (job_key id) "state" current.name d name,
                    ask,
                    name,
                    f,
                  )
                  refl)
                (rw (Memory.schedule_retry, e, last, f) refl) rep
          | inl f ↦
              accepted s (schedule_retry r c quiet rt id at d) (Memory.schedule_retry rt id at s)
                (apply_all r (retry_commands r c rt id at) d) (Memory.add_retry rt id at states s)
                (rw
                  (
                    schedule_retry,
                    r.exists_some (job_key id) "state" current.name d name,
                    ask,
                    name,
                    f,
                  )
                  refl)
                (rw (Memory.schedule_retry, e, last, f) refl)
                (recorded d s.job_states id states (retry_state r c rt at)
                  (retry_commands r c rt id at) rep e
                  (retry_commands-Records r c rt id at (r.view d)))
        ]

module _ (r : Redis) (c : Codec) (rt : Runtime) (id reason : String) (d : r.Db) (s : Store) where
  pub requeue_agrees :
      Holds r c d s.job_states
      → Paired s
      → Agrees r c s (requeue r c quiet rt id reason d) (Queues.requeue rt id reason s)
  unfolding requeue
  requeue_agrees rep pair = elim (Option-cases (s.job_states id)) [
    | inl e ↦
        refused r c s (requeue r c quiet rt id reason d) (Queues.requeue rt id reason s)
          err_not_found d
          (rw (requeue, r.exists_none (job_key id) d (absent r c rt id d s rep e)) refl)
          (requeue_absent s pair rt id reason e) rep
    | inr (states, e) ↦ found states e (present r c rt id d s rep states e)
  ]
    where
      found :
          (states : List JobState)
          → s.job_states id ≡ some states
          → Current r c rt id d s rep states
          → Agrees r c s (requeue r c quiet rt id reason d) (Queues.requeue rt id reason s)
      found states e (current, last, name) = elim (Bool-cases (irreversible_states current.name)) [
        | inl f ↦
            refused r c s (requeue r c quiet rt id reason d) (Queues.requeue rt id reason s)
              err_terminal_state d
              (rw (requeue, r.exists_some (job_key id) "state" current.name d name, ask, name, f)
                refl)
              (requeue_final s pair rt id reason states current e last f) rep
        | inr f ↦
            let moved = requeue_moves s pair rt id reason states current e last f in
            let commands : List Command = requeue_commands r c rt id reason (queue_of r c id d) in
            accepted r c s (requeue r c quiet rt id reason d) (Queues.requeue rt id reason s)
              (apply_all r commands d) moved.0
              (rw (requeue, r.exists_some (job_key id) "state" current.name d name, ask, name, f)
                refl)
              moved.1
              (subst (Holds r c (apply_all r commands d)) (sym moved.3) (
                recorded r c d s.job_states id states (Queues.requeued_state reason (rt.clock 0))
                  commands rep e
                  (requeue_commands-Records r c rt id reason (queue_of r c id d) (r.view d))))
      ]
