-- ===== src/Redis/Recurring.antt =====
-- internal/storage/redis/scheduled.go: the recurring definitions and the continuations. An empty slice
-- of arguments stands for a nil one.
use gfire.Prelude.{
  ℕ, suc, String, Option, none, some, List, [], ◌∷◌, ◌==◌, eqb, if◌then◌else◌, is_empty,
}
use gfire.Prelude.Result.{Result, ok, err, err_not_found, err_malformed}
use gfire.Job.{RecurringJobEntry, ContinuationEntry, Runtime}
use gfire.Redis.{Redis, Command, World, ask, send, after, done}
use gfire.Redis.Keys.{recurring_key, continuations_key, continuation_entry_key}
use gfire.Redis.Codec.{Codec}

abbrev pub args_or_empty : List ℕ → List ℕ
args_or_empty args = if is_empty args then 91 ∷ 93 ∷ [] else args

abbrev pub queue_or_default : String → String
queue_or_default queue = if queue == "" then "default" else queue

module _ (r : Redis) (c : Codec) where
  open r use {Db, view, smembers, hvals}

  abbrev pub recurring_with_defaults : Runtime → RecurringJobEntry → RecurringJobEntry
  recurring_with_defaults rt entry = record entry {
    updated_at = rt.clock 0;
    created_at = if eqb entry.created_at 0 then rt.clock 0 else entry.created_at;
    args = args_or_empty entry.args;
    queue = queue_or_default entry.queue;
  }

  -- Storage.UpsertRecurring
  unfoldable pub upsert_recurring :
      World Db → Runtime → RecurringJobEntry → Db → Result (Unit {0}) × Db
  upsert_recurring w rt entry d =
      send r w 0
        (Command.hset recurring_key
            ((entry.id, c.marshal_recurring (recurring_with_defaults rt entry)) ∷ [])
          ∷ [])
        d (done r)

  -- Storage.RemoveRecurring
  unfoldable pub remove_recurring : World Db → String → Db → Result (Unit {0}) × Db
  remove_recurring w id d = send r w 0 (Command.hdel recurring_key id ∷ []) d (done r)

  abbrev decode_entries : List String → Option (List RecurringJobEntry)
  decode_entries [] = some []
  decode_entries (raw ∷ raws) = elim (c.unmarshal_recurring raw) [
    | none ↦ none
    | some e ↦ elim (decode_entries raws) [ none ↦ none | some es ↦ some (e ∷ es) ]
  ]

  -- Storage.GetRecurringJobs
  unfoldable pub get_recurring_jobs : World Db → Db → Result (List RecurringJobEntry) × Db
  get_recurring_jobs w d = ask r w 0 d (λ d1. elim (decode_entries (hvals recurring_key d1)) [
    | none ↦ (err err_malformed, d1)
    | some es ↦ (ok es, d1)
  ])

  abbrev pub with_runs : Runtime → ℕ → ℕ → RecurringJobEntry → RecurringJobEntry
  with_runs rt last_run next_run entry = record entry {
    last_run = some last_run;
    next_run = some next_run;
    updated_at = rt.clock 0;
  }

  -- Storage.UpdateRecurringLastRun: a read and a write of the whole definition.
  unfoldable pub update_recurring_last_run :
      World Db → Runtime → String → ℕ → ℕ → Db → Result (Unit {0}) × Db
  update_recurring_last_run w rt id last_run next_run d = ask r w 0 d (λ d1.
      elim ((view d1).hashes recurring_key id) [
        | none ↦ (err err_not_found, d1)
        | some raw ↦ elim (c.unmarshal_recurring raw) [
          | none ↦ (err err_malformed, d1)
          | some entry ↦
              send r w 1
                (Command.hset recurring_key
                    ((id, c.marshal_recurring (with_runs rt last_run next_run entry)) ∷ [])
                  ∷ [])
                d1 (done r)
        ]
      ])

  abbrev pub continuation_with_defaults : Runtime → ContinuationEntry → ContinuationEntry
  continuation_with_defaults rt entry = record entry {
    child_args = args_or_empty entry.child_args;
    child_queue = queue_or_default entry.child_queue;
    created_at = rt.clock 0;
  }

  -- Storage.AddContinuation
  unfoldable pub add_continuation :
      World Db → Runtime → String → ContinuationEntry → Db → Result (Unit {0}) × Db
  add_continuation w rt parent entry d =
      send r w 0
        (Command.sadd (continuations_key parent) (rt.uuid 0)
          ∷ Command.set (continuation_entry_key parent (rt.uuid 0))
              (c.marshal_continuation (continuation_with_defaults rt entry))
          ∷ [])
        d (done r)

  -- The loop of GetContinuations: an entry that is gone is left out.
  unfoldable pub load_continuations :
      World Db → ℕ → String → List String → Db → Result (List ContinuationEntry) × Db
  load_continuations w i parent [] d = (ok [], d)
  load_continuations w i parent (id ∷ ids) d = ask r w i d (λ d1.
      elim ((view d1).texts (continuation_entry_key parent id)) [
        | none ↦ load_continuations w (suc i) parent ids d1
        | some raw ↦ elim (c.unmarshal_continuation raw) [
          | none ↦ (err err_malformed, d1)
          | some e ↦
              after r (load_continuations w (suc i) parent ids d1) (λ es d2. (ok (e ∷ es), d2))
        ]
      ])

  -- Storage.GetContinuations
  unfoldable pub get_continuations : World Db → String → Db → Result (List ContinuationEntry) × Db
  unfolding load_continuations
  get_continuations w parent d =
      ask r w 0 d (λ d1. load_continuations w 1 parent (smembers (continuations_key parent) d1) d1)

  abbrev delete_entries : String → List String → List Command
  delete_entries parent [] = []
  delete_entries parent (id ∷ ids) =
      Command.del (continuation_entry_key parent id) ∷ delete_entries parent ids

  -- Storage.RemoveContinuations
  unfoldable pub remove_continuations : World Db → String → Db → Result (Unit {0}) × Db
  remove_continuations w parent d = ask r w 0 d (λ d1.
      send r w 1
        (Command.del (continuations_key parent)
          ∷ delete_entries parent (smembers (continuations_key parent) d1))
        d1 (done r))
