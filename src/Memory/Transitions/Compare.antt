-- ===== src/Memory/Transitions/Compare.antt =====
-- ApplyState of memory.go, by its outcomes.
use gfire.Prelude.{
  ◌≡◌, ◌≢◌, refl, String, not, ◌&&◌, none, some, List, [], ◌∷◌, ◌++◌, ◌==◌, eq_iff, Option-cases,
  Bool-cases, inl, inr, last?, last?-append, if◌then◌else◌,
}
use gfire.Prelude.Dict.{eq_self, ne_false}
use gfire.Prelude.Result.{ok, err, ok_path, err_state_conflict}
use gfire.Job.{JobState, Runtime, state_processing}
use gfire.Memory.{Store}
use gfire.Memory.States.{apply_state, stamped, current_or_enqueued, record_state}

-- What a transition writes: the new state behind this history alone, and the job leaves the jobs in
-- process when it leaves Processing.
pub record_state_moves :
    (rt : Runtime) (id expected : String) (st : JobState) (l : List JobState) (s : Store)
    → ((record_state rt id expected st l s).job_states id ≡ some (l ++ stamped rt st ∷ []))
      × ((k : String) → id ≢ k → (record_state rt id expected st l s).job_states k ≡ s.job_states k)
      × ((record_state rt id expected st l s).processing id ≡ (
          if expected == state_processing && not (st.name == state_processing)
          then none
          else s.processing id))
record_state_moves rt id expected st l s = (
  rw (eq_self id) refl,
  λ k ne. rw (ne_false id k ne) refl,
  elim (Bool-cases (expected == state_processing && not (st.name == state_processing))) [
    | inl p ↦ rw (p, eq_self id) refl
    | inr p ↦ rw p refl
  ],
)

-- The successful side of ApplyState.
pub apply_state_moves :
    (rt : Runtime) (id expected : String) (st cur : JobState) (l : List JobState) (s : Store)
    → s.job_states id ≡ some l
    → last? l ≡ some cur
    → cur.name ≡ expected
    → (t : Store) × (apply_state rt id expected st s ≡ ok t)
      × (t.job_states id ≡ some (l ++ stamped rt st ∷ []))
unfolding apply_state
apply_state_moves rt id expected st cur l s e f same = (
  record_state rt id expected st l s,
  rw (e, f, (eq_iff cur.name expected).1 same, apply_state) refl,
  (record_state_moves rt id expected st l s).0,
)

-- What a successful transition has found and left.
pub apply_state_inv :
    (rt : Runtime) (id expected : String) (st : JobState) (s t : Store)
    → apply_state rt id expected st s ≡ ok t
    → (l : List JobState) × (s.job_states id ≡ some l) × (record_state rt id expected st l s ≡ t)
unfolding apply_state
apply_state_inv rt id expected st s t h = elim (Option-cases (s.job_states id)) [
  | inl e ↦ cc (rw (e, apply_state) at h)
  | inr (l, e) ↦ elim (Bool-cases (current_or_enqueued (last? l) == expected)) [
    | inl f ↦ (l, e, ok_path (record_state rt id expected st l s) t (rw (e, f, apply_state) at h))
    | inr f ↦ cc (rw (e, f, apply_state) at h)
  ]
]

-- After a transition out of a state into a state of another name, a second transition that
-- expects the first state is refused with a conflict.
pub apply_state_once :
    (rt rt' : Runtime) (id expected : String) (st st' : JobState) (s t : Store)
    → apply_state rt id expected st s ≡ ok t
    → st.name ≢ expected
    → apply_state rt' id expected st' t ≡ err err_state_conflict
unfolding apply_state
apply_state_once rt rt' id expected st st' s t h ne =
    let (l, e, same) = apply_state_inv rt id expected st s t h in
    rw
      (
        ← same,
        eq_self id,
        last?-append l (stamped rt st),
        ne_false st.name expected ne,
        apply_state,
      )
      refl
