-- ===== src/Postgres/Represents.antt =====
-- internal/storage/postgres: the row and the states of a job as the history that
-- internal/storage/memory/memory.go keeps. The texts and times of the states are left aside.
use gfire.Prelude.{
  ◌≡◌, refl, sym, ap, subst, ◌∙◌, String, false, Option, none, some, List, [], ◌∷◌, ◌++◌, ◌==◌,
  if◌then◌else◌, inl, inr, last?, last?-append, map, Bool-cases, eq_iff,
}
use gfire.Prelude.Dict.{Dict, insert, eq_self}
use gfire.Job.{JobState}
use gfire.Postgres.{Row, Tables, find_row, update_rows}

abbrev pub name_of : JobState → String
name_of st = st.name

-- The names of the states of one job, in the order of their insertion.
abbrev pub names_of : String → List (String × JobState) → List String
names_of id [] = []
names_of id ((j, st) ∷ rows) =
    let rest = names_of id rows in if j == id then st.name ∷ rest else rest

-- A job that is not there has no row. The state of another is the last of its states.
abbrev pub Matches : Option (List JobState) → Option Row → List String → Type 0
Matches none row names = row ≡ none
Matches (some states) row names =
    (found : Row) × (st : JobState) × (row ≡ some found)
    × (last? states ≡ some st)
    × (found.state ≡ st.name)
    × (names ≡ map name_of states)

abbrev pub Represents : Tables → Dict (List JobState) → Type 0
Represents t m = (id : String) → Matches (m id) (find_row id t.jobs) (names_of id t.states)

map-snoc :
    (states : List JobState) (st : JobState)
    → map name_of (states ++ st ∷ []) ≡ map name_of states ++ st.name ∷ []
map-snoc [] st = refl
map-snoc (x ∷ xs) st = ap (λ l. x.name ∷ l) (map-snoc xs st)

names_of-same :
    (id : String) (rows : List (String × JobState)) (st : JobState)
    → names_of id (rows ++ (id, st) ∷ []) ≡ names_of id rows ++ st.name ∷ []
names_of-same id [] st = rw (eq_self id) refl
names_of-same id ((j, s) ∷ rows) st = elim (Bool-cases (j == id)) [
  | inl e ↦ rw e (ap (λ l. s.name ∷ l) (names_of-same id rows st))
  | inr e ↦ rw e (names_of-same id rows st)
]

names_of-other :
    (id other : String) (rows : List (String × JobState)) (st : JobState)
    → (id == other) ≡ false
    → names_of other (rows ++ (id, st) ∷ []) ≡ names_of other rows
names_of-other id other [] st e = rw e refl
names_of-other id other ((j, s) ∷ rows) st e = elim (Bool-cases (j == other)) [
  | inl f ↦ rw f (ap (λ l. s.name ∷ l) (names_of-other id other rows st e))
  | inr f ↦ rw f (names_of-other id other rows st e)
]

-- An UPDATE that keeps the id.
module _ (f : Row → Row) (same_id : (row : Row) → (f row).id ≡ row.id) where
  pub find_row-update_rows :
      (id : String) (rows : List Row) (row : Row)
      → find_row id rows ≡ some row
      → find_row id (update_rows id f rows) ≡ some (f row)
  find_row-update_rows id [] row e = cc
  find_row-update_rows id (r ∷ rows) row e = elim (Bool-cases (r.id == id)) [
    | inl g ↦ rw (g, ap (λ s. s == id) (same_id r) ∙ g) (ap f' (rw g at e))
    | inr g ↦ rw (g, g) (find_row-update_rows id rows row (rw g at e))
  ]
    where
      f' : Option Row → Option Row
      f' none = none
      f' (some x) = some (f x)

  find_row-update_other :
      (id other : String) (rows : List Row)
      → (id == other) ≡ false
      → find_row other (update_rows id f rows) ≡ find_row other rows
  find_row-update_other id other [] e = refl
  find_row-update_other id other (r ∷ rows) e = elim (Bool-cases (r.id == id)) [
    | inl g ↦
        let k : (r.id == other) ≡ false = ap (λ s. s == other) ((eq_iff r.id id).0 g) ∙ e in
        rw (g, ap (λ s. s == other) (same_id r) ∙ k, k) (find_row-update_other id other rows e)
    | inr g ↦ elim (Bool-cases (r.id == other)) [
      | inl h ↦ rw (g, h) refl
      | inr h ↦ rw (g, h) (find_row-update_other id other rows e)
    ]
  ]

  -- A row is changed and a state added.
  pub Represents-moved :
      (t t' : Tables) (m : Dict (List JobState)) (id : String) (states : List JobState)
      (st : JobState) (row : Row)
      → Represents t m
      → m id ≡ some states
      → find_row id t.jobs ≡ some row
      → (f row).state ≡ st.name
      → t'.jobs ≡ update_rows id f t.jobs
      → t'.states ≡ t.states ++ (id, st) ∷ []
      → (st' : JobState) → st'.name ≡ st.name
      → Represents t' (insert id (states ++ st' ∷ []) m)
  Represents-moved t t' m id states st row rep e found new jobs log st' same other =
      elim (Bool-cases (id == other)) [
        | inr g ↦
            rw
              (
                jobs,
                log,
                g,
                find_row-update_other id other t.jobs g,
                names_of-other id other t.states st g,
              )
              (rep other)
        | inl g ↦ rw g (
            subst
              (λ k. Matches (some (states ++ st' ∷ [])) (find_row k t'.jobs) (names_of k t'.states))
              ((eq_iff id other).0 g)
              (
                f row,
                st',
                rw jobs (find_row-update_rows id t.jobs row found),
                last?-append states st',
                new ∙ sym same,
                rw log (
                    names_of-same id t.states st
                    ∙ (ap (λ l. l ++ st.name ∷ []) (kept (rw e at (rep id)))
                        ∙ (ap (λ n. map name_of states ++ n ∷ []) (sym same)
                            ∙ sym (map-snoc states st')))),
              ))
      ]
    where
      kept :
          Matches (some states) (find_row id t.jobs) (names_of id t.states)
          → names_of id t.states ≡ map name_of states
      kept (found, st, p, l, q, names) = names
