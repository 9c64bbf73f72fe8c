-- ===== src/Memory/Idempotency.antt =====
-- EnqueueIdempotent of memory.go.
use gfire.Prelude.{
  ◌≡◌, ◌≢◌, refl, sym, ◌∙◌, String, Bool, true, false, Option, none, some, [], ◌∷◌, ◌++◌, ◌==◌,
  eq_iff, Option-cases, Bool-cases, inl, inr, ◌⊎◌, if◌then◌else◌,
}
use gfire.Prelude.Dict.{eq_self, ne_false}
use gfire.Job.{Job, Runtime}
use gfire.Memory.{Store, read_list}
use gfire.Memory.Queues.{enqueue_idempotent, prepare, insert_job, create_idempotent, reuse}

-- The key asks for a new job.
abbrev pub IsUnused : String → Store → Type 0
IsUnused key s = (key ≡ "") ⊎ (s.idempotency key ≡ none)

enqueue_idempotent_unused :
    (rt : Runtime) (q : String) (job : Job) (s : Store)
    → IsUnused job.idempotency_key s
    → enqueue_idempotent rt q job s ≡ create_idempotent rt q job s
unfolding enqueue_idempotent
enqueue_idempotent_unused rt q job s h =
    cases (job.idempotency_key == "") (s.idempotency job.idempotency_key)
      (elim h [ inl e ↦ inl ((eq_iff job.idempotency_key "").1 e) | inr e ↦ inr e ])
  where
    cases :
        (b : Bool) (o : Option String)
        → (b ≡ true) ⊎ (o ≡ none)
        → (if b then create_idempotent rt q job s else reuse o s (create_idempotent rt q job s))
          ≡ create_idempotent rt q job s
    cases true o h = refl
    cases false none h = refl
    cases false (some x) (inl e) = cc
    cases false (some x) (inr e) = cc

enqueue_idempotent_used :
    (rt : Runtime) (q id : String) (job : Job) (s : Store)
    → job.idempotency_key ≢ ""
    → s.idempotency job.idempotency_key ≡ some id
    → enqueue_idempotent rt q job s ≡ (id, false, s)
unfolding enqueue_idempotent
enqueue_idempotent_used rt q id job s ne e = rw (ne_false job.idempotency_key "" ne, e) refl

create_idempotent-claims :
    (rt : Runtime) (q : String) (job : Job) (s : Store)
    → job.idempotency_key ≢ ""
    → (create_idempotent rt q job s).2.idempotency job.idempotency_key
      ≡ some (create_idempotent rt q job s).0
create_idempotent-claims rt q job s ne =
    rw (ne_false job.idempotency_key "" ne, eq_self job.idempotency_key) refl

-- After a call with a key that is not empty, a second call with the same key, whatever its job
-- and its queue, returns the same id, says that it created nothing, and changes nothing.
pub enqueue_idempotent_twice :
    (rt rt' : Runtime) (q q' : String) (job job' : Job) (s : Store)
    → job.idempotency_key ≢ ""
    → job'.idempotency_key ≡ job.idempotency_key
    → let (id, created, t) = enqueue_idempotent rt q job s in
      enqueue_idempotent rt' q' job' t ≡ (id, false, t)
enqueue_idempotent_twice rt rt' q q' job job' s ne same =
    elim (Option-cases (s.idempotency job.idempotency_key)) [
      | inl e ↦ rw (enqueue_idempotent_unused rt q job s (inr e)) (
          enqueue_idempotent_used rt' q' _ job' _ ne'
            (rw same (create_idempotent-claims rt q job s ne)))
      | inr (id, e) ↦
          rw (enqueue_idempotent_used rt q id job s ne e)
            (enqueue_idempotent_used rt' q' id job' s ne' (rw same e))
    ]
  where
    ne' : job'.idempotency_key ≢ ""
    ne' e = ne (sym same ∙ e)

-- With an empty or an unused key the job is stored with Enqueue's defaults, its id is the last of
-- the queue, and the id is recorded under the key exactly if the key is not empty.
pub enqueue_idempotent_creates :
    (rt : Runtime) (q : String) (job : Job) (s : Store)
    → IsUnused job.idempotency_key s
    → let (id, created, t) = enqueue_idempotent rt q job s in
      (created ≡ true)
      × (t.jobs id ≡ some (prepare rt job))
      × (read_list q t.queues ≡ read_list q s.queues ++ id ∷ [])
      × (t.idempotency job.idempotency_key
          ≡ (if job.idempotency_key == "" then s.idempotency job.idempotency_key else some id))
unfolding insert_job
enqueue_idempotent_creates rt q job s h = rw (enqueue_idempotent_unused rt q job s h) (
  refl,
  rw (eq_self (prepare rt job).id) refl,
  rw (eq_self q) refl,
  elim (Bool-cases (job.idempotency_key == "")) [
    | inl e ↦ rw e refl
    | inr e ↦ rw (e, eq_self job.idempotency_key) refl
  ],
)
