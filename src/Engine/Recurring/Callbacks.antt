-- ===== src/Engine/Recurring/Callbacks.antt =====
-- Which callbacks the cron scheduler has after reload of internal/engine/recurring.go.
use gfire.Prelude.{
  ◌≡◌, ◌⊎◌, refl, ◌∙◌, sym, String, Bool, true, false, none, some, List, [], ◌∷◌, ◌==◌,
  if◌then◌else◌, Option-cases, Bool-cases, inl, inr, In, eq_iff, ap, subst,
}
use mathlib.Core.Bool.{false≢true}
use gfire.Prelude.Dict.{insert, erase, eq_self, ne_false, some_path}
use gfire.Job.{RecurringJobEntry}
use gfire.Engine.Recurring.{
  Cron, Manager, schedule, unschedule, reconcile, reconcile_one, schedule_new, seen, drop_unseen,
  reload,
}
use gfire.Engine.Recurring.Reload.{reload_removes, IsDisabled}

module _ (c : Cron) where
  -- Every callback that the scheduler has is the one that the manager knows for its definition.
  abbrev pub IsInStep : Manager c → Type 0
  IsInStep m =
      (cron_id : c.EntryId) (e : RecurringJobEntry)
      → c.callback cron_id m.cron ≡ some e
      → m.entries e.id ≡ some cron_id

  unschedule-IsInStep : (k : String) (m : Manager c) → IsInStep m → IsInStep (unschedule c k m)
  unfolding unschedule
  unschedule-IsInStep k m h = elim (Option-cases (m.entries k)) [
    | inl e ↦ subst IsInStep (sym (rw (unschedule, e) refl)) h
    | inr (x, e) ↦ subst IsInStep (sym (rw (unschedule, e) refl)) (gone x e)
  ]
    where
      gone :
          (x : c.EntryId)
          → m.entries k ≡ some x
          → IsInStep (record { cron = c.remove x m.cron; entries = erase k m.entries })
      gone x e j d there =
          let (other, before) = c.remove_law x j m.cron d there in
          rw
            (ne_false k d.id
              (λ p. other (some_path j x (sym (h j d before) ∙ ap m.entries (sym p) ∙ e))))
            (h j d before)

  pub schedule-IsInStep :
      (entry : RecurringJobEntry) (m : Manager c)
      → m.entries entry.id ≡ none
      → IsInStep m
      → IsInStep (schedule c entry m)
  unfolding schedule
  schedule-IsInStep entry m free h = elim (Option-cases (c.add_func entry.cron_expr entry m.cron)) [
    | inl e ↦ subst IsInStep (sym (rw (schedule, e) refl)) h
    | inr ((x, cron'), e) ↦ subst IsInStep (sym (rw (schedule, e) refl)) (new x cron' e)
  ]
    where
      new :
          (x : c.EntryId) (cron' : c.State)
          → c.add_func entry.cron_expr entry m.cron ≡ some (x, cron')
          → IsInStep (record { cron = cron'; entries = insert entry.id x m.entries })
      new x cron' e j d there =
          elim ((c.add_func_law entry.cron_expr entry m.cron cron' x e).1 j d there) [
            | inl (same, named) ↦ rw (named, eq_self entry.id, same) refl
            | inr before ↦
                rw (ne_false entry.id d.id (λ p. cc (ap m.entries p, free, h j d before)))
                  (h j d before)
          ]

  either_IsInStep :
      (b : Bool) (m n : Manager c) → IsInStep m → IsInStep n → IsInStep (if b then m else n)
  either_IsInStep true m n p q = p
  either_IsInStep false m n p q = q

  reconcile_one-IsInStep :
      (entry : RecurringJobEntry) (m : Manager c) → IsInStep m → IsInStep (reconcile_one c entry m)
  reconcile_one-IsInStep entry m h =
      either_IsInStep entry.enabled (schedule_new c (m.entries entry.id) entry m)
        (unschedule c entry.id m)
        (elim (Option-cases (m.entries entry.id)) [
          | inl f ↦
              subst (λ o. IsInStep (schedule_new c o entry m)) (sym f)
                (schedule-IsInStep entry m f h)
          | inr (x, f) ↦ subst (λ o. IsInStep (schedule_new c o entry m)) (sym f) h
        ])
        (unschedule-IsInStep entry.id m h)

  reconcile-IsInStep :
      (defs : List RecurringJobEntry) (m : Manager c) → IsInStep m → IsInStep (reconcile c defs m)
  unfolding reconcile
  reconcile-IsInStep [] m h = h
  reconcile-IsInStep (entry ∷ defs) m h =
      reconcile-IsInStep defs (reconcile_one c entry m) (reconcile_one-IsInStep entry m h)

  drop_unseen-IsInStep :
      (order : List String) (defs : List RecurringJobEntry) (m : Manager c)
      → IsInStep m
      → IsInStep (drop_unseen c order defs m)
  unfolding drop_unseen
  drop_unseen-IsInStep [] defs m h = h
  drop_unseen-IsInStep (k ∷ order) defs m h =
      drop_unseen-IsInStep order defs (if seen c k defs then m else unschedule c k m)
        (either_IsInStep (seen c k defs) m (unschedule c k m) h (unschedule-IsInStep k m h))

  -- An enabled definition with an id.
  abbrev Enabled : String → List RecurringJobEntry → Type 0
  Enabled id defs = (d : RecurringJobEntry) × (In d defs) × (d.id ≡ id) × (d.enabled ≡ true)

  search_defs :
      (id : String) (defs : List RecurringJobEntry) → Enabled id defs ⊎ IsDisabled c id defs
  search_defs id [] = inr (λ e i same. elim i [ ])
  search_defs id (d ∷ defs) = elim (search_defs id defs) [
    | inl (x, i, same, on) ↦ inl (x, inr i, same, on)
    | inr off ↦ elim (Bool-cases (d.id == id)) [
      | inr e ↦ inr (λ x i same. elim i [
        | inl p ↦ absurd (
            false≢true
              (sym e ∙ (eq_iff d.id id).1 (ap (λ (y : RecurringJobEntry). y.id) (sym p) ∙ same)))
        | inr j ↦ off x j same
      ])
      | inl e ↦ elim (Bool-cases d.enabled) [
        | inl on ↦ inl (d, inl refl, (eq_iff d.id id).0 e, on)
        | inr dark ↦ inr (λ x i same. elim i [
          | inl p ↦ ap (λ (y : RecurringJobEntry). y.enabled) p ∙ dark
          | inr j ↦ off x j same
        ])
      ]
    ]
  ]

  -- Where every callback of the scheduler is the one that the manager knows for its definition, and
  -- the second loop of a reload visits an id, a callback that the scheduler has for this id after the
  -- reload is the one that the manager knows, and there is an enabled definition with the id. So the
  -- callbacks of definitions that were disabled or removed are taken off the scheduler.
  pub reload_callbacks :
      (order : List String) (defs : List RecurringJobEntry) (m : Manager c) (cron_id : c.EntryId)
      (e : RecurringJobEntry)
      → IsInStep m
      → In e.id order
      → c.callback cron_id (reload c order defs m).cron ≡ some e
      → ((reload c order defs m).entries e.id ≡ some cron_id)
        × (d : RecurringJobEntry) × (In d defs)
        × (d.id ≡ e.id)
        × (d.enabled ≡ true)
  unfolding reload
  reload_callbacks order defs m cron_id e h visited there =
      let known =
        drop_unseen-IsInStep order defs (reconcile c defs m) (reconcile-IsInStep defs m h) cron_id e
          there in
      let (d, i, same, on) = enabled_of known in (known, d, i, same, on)
    where
      enabled_of : (reload c order defs m).entries e.id ≡ some cron_id → Enabled e.id defs
      enabled_of known = elim (search_defs e.id defs) [
        | inl on ↦ on
        | inr off ↦ cc (reload_removes c order defs e.id m off visited, known)
      ]
