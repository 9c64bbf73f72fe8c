-- ===== src/Memory/Maintenance.antt =====
-- The section "Maintenance" of memory.go: the removal of expired jobs.
use gfire.Prelude.{
  ℕ, suc, String, Bool, false, ◌&&◌, ◌||◌, Option, none, some, List, [], ◌∷◌, ◌==◌, ltb,
  if◌then◌else◌, last?,
}
use gfire.Prelude.Dict.{erase}
use gfire.Job.{JobState, state_succeeded, state_failed, state_deleted}
use gfire.Memory.{Store, read_list}

unfoldable pub is_terminal : String → Bool
is_terminal state = state == state_succeeded || state == state_failed || state == state_deleted

abbrev pub is_expired : ℕ → Option JobState → Bool
is_expired cutoff none = false
is_expired cutoff (some st) = is_terminal st.name && ltb st.created_at cutoff

abbrev pub forget : String → Store → Store
forget id s = record s {
  jobs = erase id s.jobs;
  job_states = erase id s.job_states;
  queue_tokens = erase id s.queue_tokens;
  processing = erase id s.processing;
  progress = erase id s.progress;
  scheduled = erase id s.scheduled;
  continuations = erase id s.continuations;
}

-- The loop of RemoveExpired over the visited keys; an entry that the loop deletes is its own.
unfoldable pub remove_visited : ℕ → List String → ℕ → Store → ℕ × Store
remove_visited cutoff [] deleted s = (deleted, s)
remove_visited cutoff (id ∷ order) deleted s =
    let expired = is_expired cutoff (last? (read_list id s.job_states)) in
    remove_visited cutoff order (if expired then suc deleted else deleted)
      (if expired then forget id s else s)

-- Storage.RemoveExpired
unfoldable pub remove_expired : List String → ℕ → Store → ℕ × Store
unfolding remove_visited is_terminal
remove_expired order cutoff s = remove_visited cutoff order 0 s
