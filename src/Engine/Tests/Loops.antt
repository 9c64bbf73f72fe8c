-- ===== src/Engine/Tests/Loops.antt =====
-- The sweep of servers, recurring definitions and the pipeline of a run, at concrete arguments.
use gfire.Prelude.{
  ap, sym, ◌∙◌, subst, Bool, leb, ◌&&◌, Option, ◌⊎◌, ◌≢◌, Bool-cases, In, arith, ℕ, ◌+◌, ◌≡◌, refl,
  true, none, some, [], ◌∷◌, if◌then◌else◌, inl, inr,
}
use gfire.Prelude.Int.{pos}
use gfire.Prelude.Dict.{insert, empty, some_path}
use gfire.Job.{RecurringJobEntry, ServerInfo, Runtime, server_status_active}
use gfire.Memory.{Store, new, read_list}
use gfire.Memory.Queues.{prepare}
use gfire.Memory.Locks.{fresh_lock}
use gfire.Memory.Tests.{morning, noon}
use gfire.Middleware.{
  returned, panicked, HandlerFunc, IsPanic, execute, panic_recovery, execute-IsPanic,
}
use gfire.Engine.Recurring.{
  Cron, Manager, Tick, fire, reload, recurring_job, schedule, unschedule, reconcile, drop_unseen,
  seen,
}
use gfire.Engine.Recurring.Firing.{fire_unlocks, resource_of}
use gfire.Engine.Recurring.Callbacks.{reload_callbacks, IsInStep, schedule-IsInStep}
use mathlib.Core.Bool.{false≢true}

abbrev node : ServerInfo
node = record {
  id = "n1";
  started_at = 0;
  last_heartbeat = 100;
  worker_count = pos 4;
  queues = "mail" ∷ [];
  status = server_status_active;
}

abbrev with_node : Store
with_node = record new { servers = insert "n1" node empty }

abbrev nightly : RecurringJobEntry
nightly = record {
  id = "nightly";
  job_name = "report";
  args = [];
  queue = "";
  cron_expr = "0 0 3 * * *";
  last_run = none;
  next_run = none;
  enabled = true;
  created_at = 10;
  updated_at = 10;
}

abbrev tick_at : Runtime → Tick
tick_at rt = record {
  runtimes = λ i. rt;
  now = 950;
  next_recurring_run = λ expr now. some (now + 86_400);
}

abbrev with_lock_of : Runtime → Store
with_lock_of rt = record new {
  locks = insert (resource_of nightly) (fresh_lock rt (resource_of nightly) (pos 300)) empty;
}

fire_unlocks_example :
    ((fire (tick_at noon) nightly (with_lock_of morning)).locks (resource_of nightly) ≡ none)
    × (read_list "default" (fire (tick_at noon) nightly (with_lock_of morning)).queues
        ≡ (prepare noon (recurring_job nightly)).id ∷ [])
fire_unlocks_example = fire_unlocks (tick_at noon) nightly (with_lock_of morning) refl

-- A scheduler that numbers its entries.
abbrev same : ℕ → ℕ → Bool
same a b = leb a b && leb b a

same_eq : (a b : ℕ) → same a b ≡ true → a ≡ b
same_eq a b h = ground arith

same_self : (a : ℕ) → same a a ≡ true
same_self a = ground arith

record Numbered : Type 0 where
  next : ℕ
  calls : ℕ → Option RecurringJobEntry

abbrev with_call : RecurringJobEntry → Numbered → Numbered
with_call entry s = record {
  next = s.next + 1;
  calls = λ j. if same s.next j then some entry else s.calls j;
}

abbrev without_call : ℕ → Numbered → Numbered
without_call id s = record s { calls = λ j. if same id j then none else s.calls j }

with_call_only :
    (entry e : RecurringJobEntry) (s : Numbered) (j : ℕ)
    → (with_call entry s).calls j ≡ some e
    → ((j ≡ s.next) × (e ≡ entry)) ⊎ (s.calls j ≡ some e)
with_call_only entry e s j h = elim (Bool-cases (same s.next j)) [
  | inl f ↦ inl (sym (same_eq s.next j f), sym (some_path entry e (rw f at h)))
  | inr f ↦ inr (rw f at h)
]

without_call_only :
    (e : RecurringJobEntry) (s : Numbered) (id j : ℕ)
    → (without_call id s).calls j ≡ some e
    → (j ≢ id) × (s.calls j ≡ some e)
without_call_only e s id j h = elim (Bool-cases (same id j)) [
  | inl f ↦ cc (rw f at h)
  | inr f ↦ (λ p. absurd (false≢true (sym f ∙ ap (same id) p ∙ same_self id)), rw f at h)
]

abbrev numbering : Cron
numbering = record {
  State = Numbered;
  EntryId = ℕ;
  callback = λ id s. s.calls id;
  add_func = λ expr entry s. some (s.next, with_call entry s);
  remove = without_call;
  add_func_law = λ expr entry s t id h.
      subst
        (λ (o : ℕ × Numbered).
          (o.1.calls o.0 ≡ some entry)
          × ((j : ℕ) (e : RecurringJobEntry)
              → o.1.calls j ≡ some e
              → ((j ≡ o.0) × (e ≡ entry)) ⊎ (s.calls j ≡ some e)))
        (some_path (s.next, with_call entry s) (id, t) h)
        (rw (same_self s.next) refl, λ j e. with_call_only entry e s j);
  remove_law = λ id j s e. without_call_only e s id j;
}

abbrev weekly : RecurringJobEntry
weekly = record nightly { id = "weekly" }

-- Both definitions are scheduled.
abbrev both : Manager numbering
both = schedule numbering nightly (
    schedule numbering weekly
      (record { cron = record { next = 0; calls = λ j. none }; entries = empty }))

both-IsInStep : IsInStep numbering both
unfolding schedule
both-IsInStep =
    schedule-IsInStep numbering nightly
      (schedule numbering weekly
        (record { cron = record { next = 0; calls = λ j. none }; entries = empty }))
      refl
      (schedule-IsInStep numbering weekly
        (record { cron = record { next = 0; calls = λ j. none }; entries = empty }) refl
        (λ j e there. cc))

-- After the definition of the weekly report was removed.
still_there :
    numbering.callback 1 (reload numbering ("weekly" ∷ "nightly" ∷ []) (nightly ∷ []) both).cron
    ≡ some nightly
unfolding reload reconcile drop_unseen schedule unschedule seen
still_there = refl

reload_callbacks_example :
    ((reload numbering ("weekly" ∷ "nightly" ∷ []) (nightly ∷ []) both).entries "nightly" ≡ some 1)
    × (d : RecurringJobEntry) × (In d (nightly ∷ []))
    × (d.id ≡ "nightly")
    × (d.enabled ≡ true)
reload_callbacks_example =
    reload_callbacks numbering ("weekly" ∷ "nightly" ∷ []) (nightly ∷ []) both 1 nightly
      both-IsInStep (inr (inl refl)) still_there

abbrev crash : HandlerFunc ℕ
crash c = panicked "index out of range"

abbrev greet : HandlerFunc ℕ
greet c = returned (c ∷ [])

execute-IsPanic_example : ¬ IsPanic (execute (panic_recovery ∷ []) crash 5)
execute-IsPanic_example = execute-IsPanic [] crash 5
