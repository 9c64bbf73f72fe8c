-- ===== src/Memory/Due.antt =====
-- GetDueScheduled of memory.go: which jobs it promotes.
pub mod Collect
use gfire.Prelude.{
  ℕ, suc, ◌+◌, ◌≡◌, ◌<◌, ◌≤◌, refl, sym, ap, subst, String, Bool, true, false, Option, none, some,
  List, [], ◌∷◌, ◌++◌, ◌==◌, eq_iff, arith, Bool-cases, inl, inr, ◌⊎◌, if◌then◌else◌, In,
  last?-append, length, length-append, le→leb, max,
}
use mathlib.Core.Bool.{false≢true}
use gfire.Prelude.Int.{ℤ, pos, leb_ℤ}
use gfire.Prelude.Dict.{Dict, eq_self, contains, is_some}
use gfire.Prelude.Result.{ok}
use gfire.Job.{Job, JobTicket, Runtime, last_name, state_enqueued}
use gfire.Memory.{Store, read_list}
use gfire.Memory.WellFormed.{IsWellFormed}
use gfire.Memory.Scheduled.{
  get_due_scheduled, collect_due, is_due, promote_all, promote, promoted_state, tickets, notify,
  due_ticket,
}
use gfire.Memory.Due.Collect.{
  collect_due-length, collect_due_complete, collect_due_induction, is_due-known,
}

-- The job is off the schedule, and its last state is Enqueued.
abbrev pub IsPromoted : String → Store → Type 0
IsPromoted id s = (s.scheduled id ≡ none) × (last_name (read_list id s.job_states) ≡ state_enqueued)

promote_self : (t : ℕ) (id : String) (job : Job) (s : Store) → IsPromoted id (promote t id job s)
promote_self t id job s = (
  rw (eq_self id) refl,
  rw (eq_self id, last?-append (read_list id s.job_states) (promoted_state t)) refl,
)

promote_other :
    (t : ℕ) (k id : String) (job : Job) (s : Store)
    → IsPromoted id s
    → IsPromoted id (promote t k job s)
promote_other t k id job s p = elim (Bool-cases (k == id)) [
  | inl e ↦
      subst (λ i. IsPromoted i (promote t k job s)) ((eq_iff k id).0 e) (promote_self t k job s)
  | inr e ↦ rw e p
]

promote_all_lem :
    (rt : Runtime) (i : ℕ) (due : List String) (s : Store)
    → ((id : String) → In id due → (job : Job) × (s.jobs id ≡ some job))
    → (t : Store) × (promote_all rt i due s ≡ ok t)
      × ((id : String) → In id due ⊎ IsPromoted id s → IsPromoted id t)
unfolding promote_all
promote_all_lem rt i [] s known = (s, refl, λ id h. elim h [ inl m ↦ elim m [ ] | inr p ↦ p ])
promote_all_lem rt i (k ∷ due) s known =
    let (job, e) = known k (inl refl) in
    let s' : Store = promote (rt.clock i) k job s in
    let (t, done, all) = promote_all_lem rt (suc i) due s' (λ id m. known id (inr m)) in
    (
      t,
      rw (e, promote_all) done,
      λ id h. all id (elim h [
        | inl m ↦ elim m [
          | inl same ↦
              inr (subst (λ x. IsPromoted x s') (sym same) (promote_self (rt.clock i) k job s))
          | inr later ↦ inl later
        ]
        | inr p ↦ inr (promote_other (rt.clock i) k id job s p)
      ]),
    )

due_jobs :
    (now : ℕ) (batch : ℤ) (order : List String) (s : Store)
    → IsWellFormed s
    → (id : String) → In id (collect_due now batch order s.scheduled [])
    → (job : Job) × (s.jobs id ≡ some job)
due_jobs now batch order s w id m = found (s.jobs id) refl
  where
    known : contains id s.jobs ≡ true
    known =
        collect_due_induction (λ k. contains k s.jobs ≡ true) now batch s.scheduled
          (λ k h. w.known_scheduled k (is_due-known (s.scheduled k) now h)) order []
          (λ k n. elim n [ ]) id m

    found : (o : Option Job) → s.jobs id ≡ o → (job : Job) × (s.jobs id ≡ some job)
    found none e = absurd (false≢true (subst (λ o. is_some o ≡ true) e known))
    found (some job) e = (job, e)

In-tickets : (id : String) (due : List String) → In id due → In (due_ticket id) (tickets due)
In-tickets id [] m = elim m [ ]
In-tickets id (k ∷ due) (inl e) = inl (ap due_ticket e)
In-tickets id (k ∷ due) (inr m) = inr (In-tickets id due m)

notify-IsPromoted :
    (due : List String) (id : String) (s : Store) → IsPromoted id s → IsPromoted id (notify due s)
notify-IsPromoted [] id s p = p
notify-IsPromoted (k ∷ due) id s p = p

length-tickets : (due : List String) → length (tickets due) ≡ length due
length-tickets [] = refl
length-tickets (k ∷ due) = ap suc (length-tickets due)

get_due_scheduled_all :
    (rt : Runtime) (order : List String) (now batch : ℕ) (s : Store)
    → IsWellFormed s
    → (ts : List JobTicket) × (t : Store) × (get_due_scheduled rt order now (pos batch) s
        ≡ ok (ts, t))
      × (length ts ≤ max 1 batch)
      × ((id : String) (at : ℕ)
          → length order < batch
          → In id order
          → s.scheduled id ≡ some at
          → at ≤ now
          → In (due_ticket id) ts × IsPromoted id t)
unfolding get_due_scheduled
get_due_scheduled_all rt order now batch s w =
    let due : List String = collect_due now (pos batch) order s.scheduled [] in
    let (t, done, all) = promote_all_lem rt 0 due s (due_jobs now (pos batch) order s w) in
    (
      tickets due,
      notify due t,
      rw done refl,
      omega (
        arith,
        length-tickets due,
        collect_due-length now batch order s.scheduled [] (omega arith),
      ),
      λ id at room m e ready.
          let found : In id due =
            collect_due_complete now batch order s.scheduled [] id (omega arith)
              (inr (m, rw e (le→leb at now ready))) in
          (In-tickets id due found, notify-IsPromoted due id t (all id (inl found))),
    )

-- On a consistent store GetDueScheduled does not fail, and it returns no more jobs than the batch
-- size, or one if that is 0.
pub get_due_scheduled-length :
    (rt : Runtime) (order : List String) (now batch : ℕ) (s : Store)
    → IsWellFormed s
    → (ts : List JobTicket) × (t : Store) × (get_due_scheduled rt order now (pos batch) s
        ≡ ok (ts, t))
      × (length ts ≤ max 1 batch)
get_due_scheduled-length rt order now batch s w =
    let (ts, t, done, few, _) = get_due_scheduled_all rt order now batch s w in (ts, t, done, few)

-- On a consistent store, when the visit of the schedule is shorter than the batch size,
-- GetDueScheduled returns a ticket for a visited job whose time has come, and leaves it off the
-- schedule with Enqueued as its last state.
pub get_due_scheduled_promotes :
    (rt : Runtime) (order : List String) (now batch at : ℕ) (id : String) (s : Store)
    → IsWellFormed s
    → length order < batch
    → In id order
    → s.scheduled id ≡ some at
    → at ≤ now
    → (ts : List JobTicket) × (t : Store) × (get_due_scheduled rt order now (pos batch) s
        ≡ ok (ts, t))
      × In (due_ticket id) ts
      × IsPromoted id t
get_due_scheduled_promotes rt order now batch at id s w room m e ready =
    let (ts, t, done, _, all) = get_due_scheduled_all rt order now batch s w in
    let (found, promoted) = all id at room m e ready in (ts, t, done, found, promoted)
