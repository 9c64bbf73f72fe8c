-- ===== src/Engine/Recurring/Reload.antt =====
-- Which definitions are scheduled after reload of internal/engine/recurring.go.
use gfire.Prelude.{
  ◌≡◌, ◌≢◌, refl, ◌∙◌, sym, String, Bool, true, false, Option, none, List, [], ◌∷◌, ◌==◌,
  if◌then◌else◌, Option-cases, Bool-cases, inl, inr, In, eq_iff,
}
use mathlib.Core.Bool.{false≢true}
use gfire.Prelude.Dict.{eq_self, ne_false}
use gfire.Job.{RecurringJobEntry}
use gfire.Engine.Recurring.{
  Cron, Manager, schedule, unschedule, reconcile, reconcile_one, schedule_new, seen, drop_unseen,
  reload,
}

module _ (c : Cron) where
  unschedule_other :
      (k id : String) (m : Manager c) → k ≢ id → (unschedule c k m).entries id ≡ m.entries id
  unfolding unschedule
  unschedule_other k id m n = elim (Option-cases (m.entries k)) [
    | inl e ↦ rw (unschedule, e) refl
    | inr (x, e) ↦ rw (unschedule, e, ne_false k id n) refl
  ]

  unschedule_self : (id : String) (m : Manager c) → (unschedule c id m).entries id ≡ none
  unfolding unschedule
  unschedule_self id m = elim (Option-cases (m.entries id)) [
    | inl e ↦ rw (unschedule, e) e
    | inr (x, e) ↦ rw (unschedule, e, eq_self id) refl
  ]

  unschedule-none :
      (k id : String) (m : Manager c) → m.entries id ≡ none → (unschedule c k m).entries id ≡ none
  unfolding unschedule
  unschedule-none k id m h = elim (Option-cases (m.entries k)) [
    | inl e ↦ rw (unschedule, e) h
    | inr (x, e) ↦
        rw (unschedule, e) (elim (Bool-cases (k == id)) [ inl f ↦ rw f refl | inr f ↦ rw f h ])
  ]

  schedule_other :
      (entry : RecurringJobEntry) (id : String) (m : Manager c)
      → entry.id ≢ id
      → (schedule c entry m).entries id ≡ m.entries id
  unfolding schedule
  schedule_other entry id m n = elim (Option-cases (c.add_func entry.cron_expr entry m.cron)) [
    | inl e ↦ rw (schedule, e) refl
    | inr (x, e) ↦ rw (schedule, e, ne_false entry.id id n) refl
  ]

  either_entries :
      (b : Bool) (m n : Manager c) (id : String) (v : Option c.EntryId)
      → m.entries id ≡ v
      → n.entries id ≡ v
      → (if b then m else n).entries id ≡ v
  either_entries true m n id v p q = p
  either_entries false m n id v p q = q

  reconcile_one_other :
      (entry : RecurringJobEntry) (id : String) (m : Manager c)
      → entry.id ≢ id
      → (reconcile_one c entry m).entries id ≡ m.entries id
  reconcile_one_other entry id m n =
      either_entries entry.enabled (schedule_new c (m.entries entry.id) entry m)
        (unschedule c entry.id m) id (m.entries id)
        (elim (Option-cases (m.entries entry.id)) [
          | inl f ↦ rw f (schedule_other entry id m n)
          | inr (x, f) ↦ rw f refl
        ])
        (unschedule_other entry.id id m n)

  -- No definition with this id is enabled.
  abbrev pub IsDisabled : String → List RecurringJobEntry → Type 0
  IsDisabled id defs = (e : RecurringJobEntry) → In e defs → e.id ≡ id → e.enabled ≡ false

  reconcile_one-none :
      (entry : RecurringJobEntry) (id : String) (m : Manager c)
      → (entry.id ≡ id → entry.enabled ≡ false)
      → m.entries id ≡ none
      → (reconcile_one c entry m).entries id ≡ none
  reconcile_one-none entry id m off h = elim (Bool-cases (entry.id == id)) [
    | inl e ↦ rw (off ((eq_iff entry.id id).0 e)) (unschedule-none entry.id id m h)
    | inr e ↦
        reconcile_one_other entry id m (λ p. absurd (false≢true (sym e ∙ (eq_iff entry.id id).1 p)))
        ∙ h
  ]

  reconcile-none :
      (defs : List RecurringJobEntry) (id : String) (m : Manager c)
      → IsDisabled id defs
      → m.entries id ≡ none
      → (reconcile c defs m).entries id ≡ none
  unfolding reconcile
  reconcile-none [] id m off h = h
  reconcile-none (entry ∷ defs) id m off h =
      reconcile-none defs id (reconcile_one c entry m) (λ e i. off e (inr i))
        (reconcile_one-none entry id m (off entry (inl refl)) h)

  reconcile-seen :
      (defs : List RecurringJobEntry) (id : String) (m : Manager c)
      → IsDisabled id defs
      → seen c id defs ≡ true
      → (reconcile c defs m).entries id ≡ none
  unfolding reconcile seen
  reconcile-seen [] id m off h = cc
  reconcile-seen (entry ∷ defs) id m off h = elim (Bool-cases (entry.id == id)) [
    | inl e ↦
        reconcile-none defs id (reconcile_one c entry m) (λ x i. off x (inr i))
          (rw (off entry (inl refl) ((eq_iff entry.id id).0 e), (eq_iff entry.id id).0 e)
            (unschedule_self id m))
    | inr e ↦ reconcile-seen defs id (reconcile_one c entry m) (λ x i. off x (inr i)) (rw e at h)
  ]

  drop_one_none :
      (k id : String) (defs : List RecurringJobEntry) (m : Manager c)
      → m.entries id ≡ none
      → (if seen c k defs then m else unschedule c k m).entries id ≡ none
  drop_one_none k id defs m h = elim (Bool-cases (seen c k defs)) [
    | inl e ↦ rw e h
    | inr e ↦ rw e (unschedule-none k id m h)
  ]

  drop_unseen-none :
      (order : List String) (defs : List RecurringJobEntry) (id : String) (m : Manager c)
      → m.entries id ≡ none
      → (drop_unseen c order defs m).entries id ≡ none
  unfolding drop_unseen
  drop_unseen-none [] defs id m h = h
  drop_unseen-none (k ∷ order) defs id m h =
      drop_unseen-none order defs id (if seen c k defs then m else unschedule c k m)
        (drop_one_none k id defs m h)

  drop_unseen_removes :
      (order : List String) (defs : List RecurringJobEntry) (id : String) (m : Manager c)
      → In id order
      → seen c id defs ≡ false
      → (drop_unseen c order defs m).entries id ≡ none
  unfolding drop_unseen
  drop_unseen_removes [] defs id m i h = elim i [ ]
  drop_unseen_removes (k ∷ order) defs id m (inl e) h =
      drop_unseen-none order defs id (if seen c k defs then m else unschedule c k m)
        (rw (← e, h) (unschedule_self id m))
  drop_unseen_removes (k ∷ order) defs id m (inr i) h =
      drop_unseen_removes order defs id (if seen c k defs then m else unschedule c k m) i h

  -- The manager has no entry for an id that no enabled definition has, if the second loop of the
  -- reload visits the id.
  pub reload_removes :
      (order : List String) (defs : List RecurringJobEntry) (id : String) (m : Manager c)
      → IsDisabled id defs
      → In id order
      → (reload c order defs m).entries id ≡ none
  unfolding reload
  reload_removes order defs id m off i = elim (Bool-cases (seen c id defs)) [
    | inl e ↦ drop_unseen-none order defs id (reconcile c defs m) (reconcile-seen defs id m off e)
    | inr e ↦ drop_unseen_removes order defs id (reconcile c defs m) i e
  ]
