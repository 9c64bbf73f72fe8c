-- ===== src/Redis/Hazards.antt =====
-- internal/storage/redis: what a broken connection and a deletion leave behind.
use gfire.Prelude.{
  ℕ, suc, ◌≡◌, refl, sym, ap, subst, ◌∙◌, String, true, false, none, some, List, [], ◌∷◌, ◌++◌,
  ◌==◌, In, inl, inr, Bool-cases, eq_iff,
}
use gfire.Prelude.Int.{ℤ}
use gfire.Prelude.Dict.{eq_self}
use gfire.Prelude.Result.{ok, err, err_backend}
use gfire.Job.{Runtime, irreversible_states, state_deleted, state_processing, state_enqueued}
use gfire.Redis.{Redis, Command, World, View, lost, quiet, apply_all, ask, call}
use gfire.Redis.Keys.{job_key, queue_key, scheduled_key, state_index_key}
use gfire.Redis.Codec.{Codec}
use gfire.Redis.States.{unix, delete_job, delete_commands}
use gfire.Redis.Queues.{dequeue, requeue, requeue_commands}
use gfire.Redis.Scheduled.{get_due_scheduled, promote_script, remove_each, batch_or_default}
use gfire.Redis.Apart.{job_states_key-queue_key, processing_key-job_key}
use gfire.Redis.Laws.{effects, view-apply_all}
use gfire.Redis.Jobs.{queue_of}
use gfire.Redis.Transitions.{delete_commands-Records}
use gfire.Redis.Dispatch.{Serves, dequeue-Serves}

module _ (r : Redis) (c : Codec) where
  -- Taking ids off the schedule.
  remove_each-lists :
      (ids : List String) (v : View) → (effects (remove_each r c ids) v).lists ≡ v.lists
  remove_each-lists [] v = refl
  remove_each-lists (id ∷ ids) v = remove_each-lists ids _

  remove_each-gone :
      (ids : List String) (v : View) (x : String)
      → v.sorted scheduled_key x ≡ none
      → (effects (remove_each r c ids) v).sorted scheduled_key x ≡ none
  remove_each-gone [] v x e = e
  remove_each-gone (id ∷ ids) v x e =
      remove_each-gone ids _ x (elim (Bool-cases (id == x)) [ inl f ↦ rw f refl | inr f ↦ rw f e ])

  remove_each-In :
      (ids : List String) (v : View) (x : String)
      → In x ids
      → (effects (remove_each r c ids) v).sorted scheduled_key x ≡ none
  remove_each-In [] v x i = elim i [ ]
  remove_each-In (id ∷ ids) v x (inr i) = remove_each-In ids _ x i
  remove_each-In (id ∷ ids) v x (inl e) =
      remove_each-gone ids _ x (rw ((eq_iff id x).1 (sym e)) refl)

  -- If the connection breaks after the server has run the script of GetDueScheduled, the call fails, and
  -- every due id that the script took is off the schedule and in no queue: no list has changed.
  pub get_due_scheduled_loses :
      (w : World r.Db) (rt : Runtime) (now n : ℕ) (batch : ℤ) (id : String) (d : r.Db)
      → w.trip 0 ≡ lost (suc n)
      → In id
          (r.range_by_score scheduled_key (unix now) (batch_or_default r c batch) (w.meanwhile 0 d))
      → ((get_due_scheduled r c w rt now batch d).0 ≡ err err_backend)
        × ((r.view (get_due_scheduled r c w rt now batch d).1).sorted scheduled_key id ≡ none)
        × ((r.view (get_due_scheduled r c w rt now batch d).1).lists
            ≡ (r.view (w.meanwhile 0 d)).lists)
  unfolding get_due_scheduled promote_script
  get_due_scheduled_loses w rt now n batch id d e i =
      let d1 : r.Db = w.meanwhile 0 d in
      let ids : List String =
        r.range_by_score scheduled_key (unix now) (batch_or_default r c batch) d1 in
      let step : get_due_scheduled r c w rt now batch d
          ≡ (err err_backend, apply_all r (remove_each r c ids) d1) =
        rw (get_due_scheduled, call, e) refl in
      let v = view-apply_all r (remove_each r c ids) d1 in
      (
        ap (λ o. o.0) step,
        ap (λ o. (r.view o.1).sorted scheduled_key id) step
            ∙ (ap (λ u. u.sorted scheduled_key id) v ∙ remove_each-In ids (r.view d1) id i),
        ap (λ o. (r.view o.1).lists) step
            ∙ (ap (λ u. u.lists) v ∙ remove_each-lists ids (r.view d1)),
      )

  -- A job that DeleteJob has marked Deleted stays in its queue: where its id is the next of its queue, the next
  -- Dequeue hands it out and sets its state to Processing.
  pub deleted_job_served :
      (rt rt' : Runtime) (server q id : String) (xs : List String) (name : String) (d : r.Db)
      (fuel : ℕ)
      → (r.view d).hashes (job_key id) "state" ≡ some name
      → irreversible_states name ≡ false
      → (r.view d).lists (queue_key q) ≡ xs ++ id ∷ []
      → ((r.view (delete_job r c quiet rt id d).1).hashes (job_key id) "state" ≡ some state_deleted)
        × Serves r c rt' server q id xs
            (dequeue r c (suc fuel) quiet rt' server (q ∷ []) (delete_job r c quiet rt id d).1)
  unfolding delete_job
  deleted_job_served rt rt' server q id xs name d fuel h f e =
      let d1 : r.Db = apply_all r (delete_commands r c rt id) d in
      let step : delete_job r c quiet rt id d ≡ (ok tt, d1) =
        rw (delete_job, r.exists_some (job_key id) "state" name d h, ask, h, f) refl in
      let v : r.view d1 ≡ effects (delete_commands r c rt id) (r.view d) =
        view-apply_all r (delete_commands r c rt id) d in
      let marked : (r.view d1).hashes (job_key id) "state" ≡ some state_deleted =
        rw v ((delete_commands-Records r c rt id (r.view d)).0) in
      let kept : (r.view d1).lists (queue_key q) ≡ xs ++ id ∷ [] =
        rw (v, job_states_key-queue_key id q) e in
      (
        ap (λ o. (r.view o.1).hashes (job_key id) "state") step ∙ marked,
        subst
            (λ o.
              Serves r c rt' server q id xs (dequeue r c (suc fuel) quiet rt' server (q ∷ []) o.1))
            (sym step)
            (dequeue-Serves r c rt' server [] [] q id xs "state" state_deleted d1 fuel tt kept
              marked),
      )

  indexed :
      (rt : Runtime) (id reason name queue : String) (v : View)
      → (state_index_key state_processing == state_index_key name) ≡ false
      → v.sets (state_index_key name) id ≡ true
      → (effects (requeue_commands r c rt id reason queue) v).sets (state_index_key name) id ≡ true
  indexed rt id reason name queue v p i =
      elim (Bool-cases (state_index_key state_enqueued == state_index_key name)) [
        | inl e ↦ rw (e, eq_self id) refl
        | inr e ↦ rw (e, p) i
      ]

  -- Requeue leaves the id in the index of the state that the job was in, unless that was Processing or Enqueued,
  -- and adds it to the index of Enqueued.
  pub requeue_keeps_index :
      (rt : Runtime) (id reason name : String) (d : r.Db)
      → (r.view d).hashes (job_key id) "state" ≡ some name
      → irreversible_states name ≡ false
      → (state_index_key state_processing == state_index_key name) ≡ false
      → (r.view d).sets (state_index_key name) id ≡ true
      → ((r.view (requeue r c quiet rt id reason d).1).hashes (job_key id) "state"
          ≡ some state_enqueued)
        × ((r.view (requeue r c quiet rt id reason d).1).sets (state_index_key name) id ≡ true)
        × ((r.view (requeue r c quiet rt id reason d).1).sets (state_index_key state_enqueued) id
            ≡ true)
  unfolding requeue
  requeue_keeps_index rt id reason name d h f p i =
      let commands : List Command = requeue_commands r c rt id reason (queue_of r c id d) in
      let step : requeue r c quiet rt id reason d ≡ (ok tt, apply_all r commands d) =
        rw (requeue, r.exists_some (job_key id) "state" name d h, ask, h, f) refl in
      let v : r.view (apply_all r commands d) ≡ effects commands (r.view d) =
        view-apply_all r commands d in
      (
        ap (λ o. (r.view o.1).hashes (job_key id) "state") step
            ∙ rw (v, processing_key-job_key id, eq_self (job_key id)) refl,
        ap (λ o. (r.view o.1).sets (state_index_key name) id) step
            ∙ rw v (indexed rt id reason name (queue_of r c id d) (r.view d) p i),
        ap (λ o. (r.view o.1).sets (state_index_key state_enqueued) id) step
            ∙ rw (v, eq_self id) refl,
      )
