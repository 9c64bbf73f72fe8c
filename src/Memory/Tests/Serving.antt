-- ===== src/Memory/Tests/Serving.antt =====
-- Calls of the in-memory store, what Dequeue serves and what RemoveExpired leaves, at concrete stores.
use gfire.Prelude.{◌≡◌, refl, true, none, some, [], ◌∷◌, last?, if◌then◌else◌, inl}
use gfire.Prelude.Result.{ok, fault}
use gfire.Job.{JobTicket, state_enqueued, state_processing, state_succeeded, state_deleted}
use gfire.Memory.{new, read_list}
use gfire.Memory.Queues.{dequeue_pass, processing_state}
use gfire.Memory.Maintenance.{remove_expired, is_terminal}
use gfire.Memory.WellFormed.{IsWellFormed}
use gfire.Memory.Calls.{Call, perform, run, Keeps, Safe}
use gfire.Memory.Calls.Safety.{perform-Safe}
use gfire.Memory.Calls.Live.{run-new-IsSound, IsSound}
use gfire.Memory.Calls.Append.{perform-Grows, Grows}
use gfire.Memory.Dispatch.{dequeue_pass_serves_front, handed_out}
use gfire.Memory.Expiry.{remove_expired_then_dequeue, remove_expired_lem, expires}
use gfire.Memory.Tests.{
  morning, noon, email, state_at, stored, one_planned, one_planned-IsWellFormed,
}

run-new-IsSound_example : Safe IsSound (
    run
      (Call.enqueue morning "mail" email
        ∷ Call.dequeue_pass noon ("low" ∷ "mail" ∷ [])
        ∷ Call.apply_state noon "a" state_processing (state_at state_succeeded 0)
        ∷ [])
      new)
run-new-IsSound_example =
    run-new-IsSound
      (Call.enqueue morning "mail" email
        ∷ Call.dequeue_pass noon ("low" ∷ "mail" ∷ [])
        ∷ Call.apply_state noon "a" state_processing (state_at state_succeeded 0)
        ∷ [])
      (refl, (refl, (refl, tt)))

perform-Safe_example : Safe IsWellFormed (perform (Call.delete_job noon "a") one_planned)
perform-Safe_example =
    perform-Safe (Call.delete_job noon "a") one_planned refl one_planned-IsWellFormed

perform-Grows_example : Keeps (Grows (stored state_processing)) (
    perform
      (Call.apply_state noon "a" state_processing (state_at state_succeeded 0))
      (stored state_processing))
perform-Grows_example =
    perform-Grows (Call.apply_state noon "a" state_processing (state_at state_succeeded 0))
      (stored state_processing) refl

dequeue_pass_serves_front_example :
    (t : JobTicket) × (dequeue_pass noon true ("low" ∷ "mail" ∷ "rest" ∷ []) (stored state_enqueued)
      ≡ ok (some t, handed_out noon "mail" "a" [] (stored state_enqueued)))
    × (t.job_id ≡ "a")
    × ((handed_out noon "mail" "a" [] (stored state_enqueued)).queues "mail" ≡ some [])
    × (last? (read_list "a" (handed_out noon "mail" "a" [] (stored state_enqueued)).job_states)
        ≡ some (processing_state 901))
dequeue_pass_serves_front_example =
    dequeue_pass_serves_front noon ("low" ∷ []) ("rest" ∷ []) "mail" "a" [] email
      (stored state_enqueued) (refl, tt) refl refl

remove_expired_then_dequeue_example :
    dequeue_pass noon true ("mail" ∷ []) (remove_expired ("a" ∷ []) 800 (stored state_deleted)).1
    ≡ fault
unfolding is_terminal
remove_expired_then_dequeue_example =
    remove_expired_then_dequeue noon ("a" ∷ []) 800 "mail" "a" [] [] (stored state_deleted)
      (inl refl) refl refl

remove_expired_lem_example :
    ((remove_expired ("a" ∷ []) 800 (stored state_deleted)).1.jobs "a"
      ≡ (if expires 800 (stored state_deleted) "a" then none else some email))
    × ((remove_expired ("a" ∷ []) 800 (stored state_deleted)).1.job_states "a" ≡ (
        if expires 800 (stored state_deleted) "a"
        then none
        else (stored state_deleted).job_states "a"))
remove_expired_lem_example = remove_expired_lem ("a" ∷ []) 800 "a" (stored state_deleted) (inl refl)
