-- ===== src/Redis/Tests/Failing.antt =====
-- The store of internal/storage/redis on the server and the codec of the tests: locks, deletion, a
-- broken connection.
use text.Mathlib.TextLemmas.{length-append}
use Prim.Native.String.{count}
use gfire.Prelude.{
  ◌+◌, ◌≡◌, ◌≢◌, refl, ap, sym, ◌∙◌, String, true, false, none, some, [], ◌∷◌, ◌==◌, arith, In, inl,
}
use gfire.Prelude.Int.{pos, ◌-ℤ◌}
use gfire.Prelude.Text.{◌<>◌}
use gfire.Prelude.Dict.{ne_false}
use gfire.Prelude.Result.{ok, err, err_backend, err_lock_not_held}
use gfire.Job.{irreversible_states}
use gfire.Memory.Tests.{morning, noon, email, state_at}
use gfire.Redis.{quiet}
use gfire.Redis.Keys.{job_key, job_states_key, scheduled_key, state_index_key}
use gfire.Redis.Codec.{job_hash_fields}
use gfire.Redis.Queues.{enqueue, dequeue, requeue}
use gfire.Redis.States.{apply_state, apply_state_script, delete_job, unix}
use gfire.Redis.Scheduled.{add_scheduled, get_due_scheduled}
use gfire.Redis.Maintenance.{remove_expired, is_before}
use gfire.Redis.Locks.{acquire_lock, release}
use gfire.Redis.Apart.{eq-append}
use gfire.Redis.Tests.Format.{plain_codec}
use gfire.Redis.Tests.Log.{keep}
use gfire.Redis.Tests.Server.{log_server}
use gfire.Redis.Tests.Running.{no_data, breaking, after_enqueue, enqueued_list, enqueued_hash}
use gfire.Redis.Exclusion.{owner, lock_of, lock_excludes}
use gfire.Redis.Hazards.{get_due_scheduled_loses, deleted_job_served, requeue_keeps_index}
use gfire.Redis.Expiry.{remove_expired_keeps}
use gfire.Redis.Dispatch.{Serves}

tick_is_free : owner log_server "tick" no_data ≡ none
unfolding log_server
tick_is_free = refl

lock_excludes_example :
    (d1 : log_server.Db) × (d2 : log_server.Db) × (d3 : log_server.Db) × (d4 : log_server.Db)
    × (acquire_lock log_server quiet morning "tick" (pos 30) no_data
        ≡ (ok (lock_of log_server "tick" "job-1"), d1))
    × (acquire_lock log_server quiet noon "tick" (pos 30) d1 ≡ (err err_lock_not_held, d1))
    × (release log_server quiet (lock_of log_server "tick" "job-2") d1
        ≡ (err err_lock_not_held, d1))
    × (release log_server quiet (lock_of log_server "tick" "job-1") d1 ≡ (ok tt, d2))
    × (acquire_lock log_server quiet noon "tick" (pos 30) d2
        ≡ (ok (lock_of log_server "tick" "job-2"), d3))
    × (release log_server quiet (lock_of log_server "tick" "job-1") d3
        ≡ (err err_lock_not_held, d3))
    × (owner log_server "tick" d3 ≡ some "job-2")
    × (release log_server quiet (lock_of log_server "tick" "job-2") d3 ≡ (ok tt, d4))
    × (owner log_server "tick" d4 ≡ none)
lock_excludes_example =
    lock_excludes log_server "tick" morning noon (pos 30) (pos 30) no_data tick_is_free refl

enqueued_is_open : irreversible_states "Enqueued" ≡ false
unfolding irreversible_states
enqueued_is_open = refl

failed_is_open : irreversible_states "Failed" ≡ false
unfolding irreversible_states
failed_is_open = refl

deleted_job_served_example :
    ((log_server.view (delete_job log_server plain_codec quiet morning "a" after_enqueue).1).hashes
        (job_key "a")
        "state"
      ≡ some "Deleted")
    × Serves log_server plain_codec noon "s" "mail" "a" [] (
        dequeue log_server plain_codec 1 quiet noon "s"
          ("mail" ∷ [])
          (delete_job log_server plain_codec quiet morning "a" after_enqueue).1)
deleted_job_served_example =
    deleted_job_served log_server plain_codec morning noon "s" "mail" "a" [] "Enqueued"
      after_enqueue 0 enqueued_hash enqueued_is_open enqueued_list

-- The job has failed.
abbrev after_failure : log_server.Db
after_failure =
    (apply_state log_server plain_codec quiet noon "a" "Enqueued" (state_at "Failed" 300)
      after_enqueue).1

-- The job is due at the time of Go's zero time; the connection breaks after the script.
abbrev after_schedule : log_server.Db
after_schedule = (add_scheduled log_server plain_codec quiet morning 0 email no_data).1

due_job : In "a" (log_server.range_by_score scheduled_key (unix 900) 10 after_schedule)
unfolding log_server add_scheduled keep ◌-ℤ◌
due_job = inl refl

get_due_scheduled_loses_example :
    ((get_due_scheduled log_server plain_codec breaking noon 900 (pos 10) after_schedule).0
      ≡ err err_backend)
    × ((log_server.view
            (get_due_scheduled log_server plain_codec breaking noon 900
              (pos 10)
              after_schedule).1).sorted
          scheduled_key "a"
        ≡ none)
    × ((log_server.view
          (get_due_scheduled log_server plain_codec breaking noon 900
            (pos 10)
            after_schedule).1).lists
        ≡ (log_server.view after_schedule).lists)
get_due_scheduled_loses_example =
    get_due_scheduled_loses log_server plain_codec breaking noon 900 2 (pos 10) "a" after_schedule
      refl due_job

failed_hash : (log_server.view after_failure).hashes (job_key "a") "state" ≡ some "Failed"
unfolding log_server apply_state apply_state_script enqueue job_hash_fields
failed_hash = refl

failed_index : (log_server.view after_failure).sets (state_index_key "Failed") "a" ≡ true
unfolding log_server apply_state apply_state_script enqueue job_hash_fields
failed_index = refl

requeue_keeps_index_example :
    ((log_server.view
          (requeue log_server plain_codec quiet noon "a" "retry" after_failure).1).hashes
        (job_key "a")
        "state"
      ≡ some "Enqueued")
    × ((log_server.view
            (requeue log_server plain_codec quiet noon "a" "retry" after_failure).1).sets
          (state_index_key "Failed")
          "a"
        ≡ true)
    × ((log_server.view
            (requeue log_server plain_codec quiet noon "a" "retry" after_failure).1).sets
          (state_index_key "Enqueued")
          "a"
        ≡ true)
requeue_keeps_index_example =
    requeue_keeps_index log_server plain_codec noon "a" "retry" "Failed" after_failure failed_hash
      failed_is_open refl failed_index

-- The id "a" is too short to end as the key of a history does.
apart : (j : String) → (job_states_key j == job_key "a") ≡ false
apart j =
    eq-append "gfire:job:" (j <> ":states") "a"
    ∙ ne_false (j <> ":states") "a" (λ e. longer (sym (length-append j ":states") ∙ ap count e))
  where
    longer : count j + 7 ≢ 1
    longer e = omega (arith, e)

failed_at :
    (log_server.view after_failure).hashes (job_key "a") "updated_at"
    ≡ some (plain_codec.format 300)
unfolding log_server apply_state apply_state_script enqueue job_hash_fields
failed_at = refl

failed_late : is_before log_server plain_codec 200 (plain_codec.format 300) ≡ false
failed_late = rw (is_before, plain_codec.parse_format 300) refl

remove_expired_keeps_example :
    (log_server.view (remove_expired log_server plain_codec quiet 200 after_failure).1).hashes
      (job_key "a")
    ≡ (log_server.view after_failure).hashes (job_key "a")
remove_expired_keeps_example =
    remove_expired_keeps log_server plain_codec 200 "a" (plain_codec.format 300) after_failure
      failed_at failed_late apart
