-- ===== src/Redis/Represents.antt =====
-- internal/storage/redis/jobs.go: the hash and the list of a job as the history that
-- internal/storage/memory/memory.go keeps.
use gfire.Prelude.{
  ◌≡◌, refl, sym, ap, subst, ◌∙◌, String, false, Option, none, some, List, [], ◌∷◌, ◌++◌, ◌==◌, inl,
  inr, last?, last?-append, map, Bool-cases, eq_iff,
}
use gfire.Prelude.Dict.{Dict, insert}
use gfire.Job.{JobState}
use gfire.Redis.{View}
use gfire.Redis.Keys.{job_key, job_states_key}

module _ (marshal : JobState → String) where
  -- A job that is not there has no field and no history. The field "state" of another is the name of its
  -- last state, and its list holds the texts of its states.
  abbrev pub Matches : Option (List JobState) → Dict String → List String → Type 0
  Matches none hash history = ((f : String) → hash f ≡ none) × (history ≡ [])
  Matches (some states) hash history =
      (st : JobState) × (last? states ≡ some st)
      × (hash "state" ≡ some st.name)
      × (history ≡ map marshal states)

  abbrev pub Represents : View → Dict (List JobState) → Type 0
  Represents v m =
      (id : String) → Matches (m id) (v.hashes (job_key id)) (v.lists (job_states_key id))

  map-snoc :
      (states : List JobState) (st : JobState)
      → map marshal (states ++ st ∷ []) ≡ map marshal states ++ marshal st ∷ []
  map-snoc [] st = refl
  map-snoc (x ∷ xs) st = ap (λ l. marshal x ∷ l) (map-snoc xs st)

  -- A step that adds one state to the history of one job.
  abbrev pub Records : String → JobState → View → View → Type 0
  Records id st v v' =
      (v'.hashes (job_key id) "state" ≡ some st.name)
      × (v'.lists (job_states_key id) ≡ v.lists (job_states_key id) ++ marshal st ∷ [])
      × ((j : String) → (id == j) ≡ false → v'.hashes (job_key j) ≡ v.hashes (job_key j))
      × ((j : String)
          → (id == j) ≡ false
          → v'.lists (job_states_key j) ≡ v.lists (job_states_key j))

  pub Represents-Records :
      (v v' : View) (m : Dict (List JobState)) (id : String) (states : List JobState)
      (st : JobState)
      → Represents v m
      → m id ≡ some states
      → Records id st v v'
      → Represents v' (insert id (states ++ st ∷ []) m)
  Represents-Records v v' m id states st rep e (name, history, hashes, lists) j =
      elim (Bool-cases (id == j)) [
        | inr other ↦ rw (other, hashes j other, lists j other) (rep j)
        | inl same ↦ rw same (
            subst
              (λ k.
                Matches (some (states ++ st ∷ [])) (v'.hashes (job_key k))
                  (v'.lists (job_states_key k)))
              ((eq_iff id j).0 same)
              (
                st,
                last?-append states st,
                name,
                history
                    ∙ (ap (λ l. l ++ marshal st ∷ []) (kept (rw e at (rep id)))
                        ∙ sym (map-snoc states st)),
              ))
      ]
    where
      kept :
          Matches (some states) (v.hashes (job_key id)) (v.lists (job_states_key id))
          → v.lists (job_states_key id) ≡ map marshal states
      kept (st, last, name, h) = h

  -- The first state of a job that was not there.
  pub Represents-Records_new :
      (v v' : View) (m : Dict (List JobState)) (id : String) (st : JobState)
      → Represents v m
      → m id ≡ none
      → Records id st v v'
      → Represents v' (insert id (st ∷ []) m)
  Represents-Records_new v v' m id st rep e (name, history, hashes, lists) j =
      elim (Bool-cases (id == j)) [
        | inr other ↦ rw (other, hashes j other, lists j other) (rep j)
        | inl same ↦ rw same (
            subst
              (λ k. Matches (some (st ∷ [])) (v'.hashes (job_key k)) (v'.lists (job_states_key k)))
              ((eq_iff id j).0 same)
              (st, refl, name, history ∙ ap (λ l. l ++ marshal st ∷ []) (kept (rw e at (rep id)))))
      ]
    where
      kept :
          Matches none (v.hashes (job_key id)) (v.lists (job_states_key id))
          → v.lists (job_states_key id) ≡ []
      kept (h, l) = l
