-- ===== src/Memory/Recurring.antt =====
-- The sections "Recurring Jobs", "Continuations" and "Counters" of memory.go: the methods that write.
use gfire.Prelude.{ℕ, String, none, some, [], ◌∷◌, ◌++◌, eqb, if◌then◌else◌}
use gfire.Prelude.Int.{ℤ}
use gfire.Prelude.Dict.{insert, erase}
use gfire.Prelude.Result.{Result, ok, err, err_not_found}
use gfire.Job.{RecurringJobEntry, ContinuationEntry, Runtime}
use gfire.Memory.{Store, read_list, add_count}

-- Storage.UpsertRecurring
unfoldable pub upsert_recurring : Runtime → RecurringJobEntry → Store → Store
upsert_recurring rt entry s = record s { recurring = insert entry.id entry' s.recurring }
  where
    entry' : RecurringJobEntry
    entry' = record entry {
      updated_at = rt.clock 0;
      created_at = if eqb entry.created_at 0 then rt.clock 0 else entry.created_at;
    }

-- Storage.RemoveRecurring
unfoldable pub remove_recurring : String → Store → Store
remove_recurring id s = record s { recurring = erase id s.recurring }

-- Storage.UpdateRecurringLastRun
unfoldable pub update_recurring_last_run : Runtime → String → ℕ → ℕ → Store → Result Store
update_recurring_last_run rt id last_run next_run s = elim (s.recurring id) [
  | none ↦ err err_not_found
  | some entry ↦ ok (record s {
    recurring =
        insert id
          (record entry {
            last_run = some last_run;
            next_run = some next_run;
            updated_at = rt.clock 0;
          })
          s.recurring;
  })
]

-- Storage.AddContinuation
unfoldable pub add_continuation : Runtime → String → ContinuationEntry → Store → Store
add_continuation rt parent entry s = record s {
  continuations =
      insert parent
        (read_list parent s.continuations ++ record entry { created_at = rt.clock 0 } ∷ [])
        s.continuations;
}

-- Storage.RemoveContinuations
unfoldable pub remove_continuations : String → Store → Store
remove_continuations parent s = record s { continuations = erase parent s.continuations }

-- Storage.IncrementCounter
unfoldable pub increment_counter : String → ℤ → Store → Store
increment_counter key delta s = record s { counters = add_count key delta s.counters }
