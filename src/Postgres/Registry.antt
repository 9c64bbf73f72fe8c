-- ===== src/Postgres/Registry.antt =====
-- internal/storage/postgres/servers.go, scheduled.go and misc.go: servers, recurring definitions,
-- continuations and counters. A call of one statement has the number 0 for it.
use gfire.Prelude.{
  ℕ, String, Bool, ◌&&◌, ◌||◌, Option, none, some, List, [], ◌∷◌, ◌++◌, ◌==◌, if◌then◌else◌,
  is_empty, eqb, get_or,
}
use gfire.Prelude.Int.{ℤ, pos}
use gfire.Prelude.Dict.{insert, erase, is_some}
use gfire.Prelude.Result.{Result, ok, err, err_not_found, err_backend}
use gfire.Job.{
  ServerInfo, RecurringJobEntry, ContinuationEntry, Runtime, server_status_active,
  condition_on_succeeded, condition_on_failed, condition_on_any,
}
use gfire.Memory.Query.{visit}
use gfire.Postgres.{Tables, Session, find_row, bump_counter}

-- A call of one statement that writes.
abbrev pub statement : Session → (Tables → Tables) → Tables → Result (Unit {0}) × Tables
statement w f t = if w.fails 0 then (err err_backend, t) else (ok tt, f t)

-- The values that RegisterServer writes into the record.
abbrev pub registered : Runtime → ServerInfo → ServerInfo
registered rt sv = record sv {
  started_at = if eqb sv.started_at 0 then rt.clock 0 else sv.started_at;
  last_heartbeat = rt.clock 0;
  status = if sv.status == "" then server_status_active else sv.status;
  queues = if is_empty sv.queues then "default" ∷ [] else sv.queues;
}

-- ON CONFLICT (id) DO UPDATE keeps the time of the start.
abbrev pub server_row : ServerInfo → Option ServerInfo → ServerInfo
server_row sv none = sv
server_row sv (some old) = record sv { started_at = old.started_at }

-- Storage.RegisterServer
unfoldable pub register_server :
    Session → Runtime → ServerInfo → Tables → Result (Unit {0}) × Tables
register_server w rt sv = statement w (λ t. record t {
  servers = insert sv.id (server_row (registered rt sv) (t.servers sv.id)) t.servers;
})

-- Storage.UnregisterServer
unfoldable pub unregister_server : Session → String → Tables → Result (Unit {0}) × Tables
unregister_server w id = statement w (λ t. record t { servers = erase id t.servers })

-- Storage.Heartbeat
unfoldable pub heartbeat : Session → Runtime → String → Tables → Result (Unit {0}) × Tables
heartbeat w rt id t = if w.fails 0 then (err err_backend, t) else elim (t.servers id) [
  | none ↦ (err err_not_found, t)
  | some sv ↦ (
    ok tt,
    record t {
      servers =
          insert id (record sv { last_heartbeat = rt.clock 0; status = server_status_active })
            t.servers;
    },
  )
]

-- Storage.GetServers; `order` are the ids in their order.
unfoldable pub get_servers : Session → List String → Tables → Result (List ServerInfo)
get_servers w order t = if w.fails 0 then err err_backend else ok (visit order t.servers)

abbrev args_or_empty : List ℕ → List ℕ
args_or_empty args = if is_empty args then 91 ∷ 93 ∷ [] else args

abbrev queue_or_default : String → String
queue_or_default queue = if queue == "" then "default" else queue

-- The values that UpsertRecurring writes into the definition.
abbrev pub recurring_with_defaults : Runtime → RecurringJobEntry → RecurringJobEntry
recurring_with_defaults rt entry = record entry {
  updated_at = rt.clock 0;
  created_at = if eqb entry.created_at 0 then rt.clock 0 else entry.created_at;
  args = args_or_empty entry.args;
  queue = queue_or_default entry.queue;
}

-- ON CONFLICT (id) DO UPDATE keeps the time of the creation.
abbrev pub recurring_row : RecurringJobEntry → Option RecurringJobEntry → RecurringJobEntry
recurring_row entry none = entry
recurring_row entry (some old) = record entry { created_at = old.created_at }

-- Storage.UpsertRecurring
unfoldable pub upsert_recurring :
    Session → Runtime → RecurringJobEntry → Tables → Result (Unit {0}) × Tables
upsert_recurring w rt entry t =
    let entry' : RecurringJobEntry = recurring_with_defaults rt entry in
    elim (w.json entry'.args) [
      | none ↦ (err err_backend, t)
      | some args ↦
          statement w
            (λ t'. record t' {
              recurring =
                  insert entry.id
                    (recurring_row (record entry' { args = args }) (t'.recurring entry.id))
                    t'.recurring;
            })
            t
    ]

-- Storage.RemoveRecurring
unfoldable pub remove_recurring : Session → String → Tables → Result (Unit {0}) × Tables
remove_recurring w id = statement w (λ t. record t { recurring = erase id t.recurring })

-- Storage.GetRecurringJobs; `order` are the ids in their order.
unfoldable pub get_recurring_jobs : Session → List String → Tables → Result (List RecurringJobEntry)
get_recurring_jobs w order t = if w.fails 0 then err err_backend else ok (visit order t.recurring)

-- Storage.UpdateRecurringLastRun
unfoldable pub update_recurring_last_run :
    Session → Runtime → String → ℕ → ℕ → Tables → Result (Unit {0}) × Tables
update_recurring_last_run w rt id last_run next_run t =
    if w.fails 0 then (err err_backend, t) else elim (t.recurring id) [
      | none ↦ (err err_not_found, t)
      | some entry ↦ (
        ok tt,
        record t {
          recurring =
              insert id
                (record entry {
                  last_run = some last_run;
                  next_run = some next_run;
                  updated_at = rt.clock 0;
                })
                t.recurring;
        },
      )
    ]

-- CHECK (condition IN …)
abbrev pub is_condition : String → Bool
is_condition s = s == condition_on_succeeded || (s == condition_on_failed || s == condition_on_any)

-- Storage.AddContinuation; the parent has to be a job, and the condition one of three.
unfoldable pub add_continuation :
    Session → Runtime → String → ContinuationEntry → Tables → Result (Unit {0}) × Tables
add_continuation w rt parent entry t =
    if is_some (find_row parent t.jobs) && is_condition entry.condition
    then elim (w.json (args_or_empty entry.child_args)) [
      | none ↦ (err err_backend, t)
      | some args ↦
          let entry' : ContinuationEntry = record entry {
            child_args = args;
            child_queue = queue_or_default entry.child_queue;
            created_at = rt.clock 0;
          } in
          statement w
            (λ t'. record t' { continuations = t'.continuations ++ (parent, entry') ∷ [] }) t
    ]
    else (err err_backend, t)

abbrev pub of_parent : String → List (String × ContinuationEntry) → List ContinuationEntry
of_parent parent [] = []
of_parent parent ((p, e) ∷ rows) =
    let rest = of_parent parent rows in if p == parent then e ∷ rest else rest

-- Storage.GetContinuations
unfoldable pub get_continuations : Session → String → Tables → Result (List ContinuationEntry)
get_continuations w parent t =
    if w.fails 0 then err err_backend else ok (of_parent parent t.continuations)

abbrev pub without_parent :
    String → List (String × ContinuationEntry) → List (String × ContinuationEntry)
without_parent parent [] = []
without_parent parent ((p, e) ∷ rows) =
    let rest = without_parent parent rows in if p == parent then rest else (p, e) ∷ rest

-- Storage.RemoveContinuations
unfoldable pub remove_continuations : Session → String → Tables → Result (Unit {0}) × Tables
remove_continuations w parent =
    statement w (λ t. record t { continuations = without_parent parent t.continuations })

-- Storage.IncrementCounter
unfoldable pub increment_counter : Session → String → ℤ → Tables → Result (Unit {0}) × Tables
increment_counter w key delta = statement w (bump_counter key delta)

-- Storage.GetCounter
unfoldable pub get_counter : Session → String → Tables → Result ℤ
get_counter w key t = if w.fails 0 then err err_backend else ok (get_or (t.counters key) (pos 0))
