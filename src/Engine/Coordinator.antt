-- ===== src/Engine/Coordinator.antt =====
-- internal/engine/coordinator.go and tickScheduler of engine.go over the in-memory store: the
-- periodic work of a node. `rts` are the environments of the calls of a tick, in their order.
pub mod Sweep
use gfire.Prelude.{
  ℕ, suc, ◌+◌, ◌-◌, ◌*◌, ◌≡◌, ◌≢◌, refl, sym, ap, subst, ◌∙◌, String, Bool, true, false, Option,
  none, some, List, [], ◌∷◌, ◌++◌, ◌==◌, if◌then◌else◌, In, inl, inr, ◌⊎◌, ltb, ◌^◌, Bool-cases,
  eq_iff, arith,
}
use mathlib.Core.Bool.{false≢true}
use gfire.Prelude.Int.{ℤ, int64, ◌*ℤ◌, pos, negsuc, pos_part, neg_part, ltb_ℤ, leb_ℤ, sub_ℕ}
use gfire.Prelude.Dict.{Dict, erase, eq_self, ne_false}
use gfire.Prelude.Result.{Result, ok, err, fault}
use gfire.Job.{JobTicket, ServerInfo, Runtime}
use gfire.Memory.{Store}
use gfire.Memory.Queues.{requeue}
use gfire.Memory.Query.{get_orphaned_jobs, get_servers, visit, sub_time}
use gfire.Memory.Registry.{heartbeat, unregister_server}
use gfire.Memory.Scheduled.{get_due_scheduled}
use gfire.Memory.Maintenance.{remove_expired}
use gfire.Engine.Config.{Config}

-- An error is logged and the store is as it was.
abbrev pub or_same : Result Store → Store → Result Store
or_same (ok t) s = ok t
or_same (err e) s = ok s
or_same fault s = fault

abbrev pub then_store : Result Store → (Store → Result Store) → Result Store
then_store (ok t) next = next t
then_store (err e) next = err e
then_store fault next = fault

-- The loop of coordinatorTick over the orphans.
unfoldable pub requeue_all : (ℕ → Runtime) → ℕ → List JobTicket → Store → Result Store
requeue_all rts i [] s = ok s
requeue_all rts i (t ∷ ts) s =
    then_store (or_same (requeue (rts i) t.job_id "orphan recovery" s) s)
      (λ s'. requeue_all rts (suc i) ts s')

-- coordinatorTick; `order` is the visit of the heartbeats.
unfoldable pub coordinator_tick : (ℕ → Runtime) → List String → Config → Store → Result Store
unfolding requeue_all
coordinator_tick rts order cfg s =
    then_store (or_same (heartbeat (rts 0) cfg.server_id cfg.server_heartbeat_ttl s) s)
      (λ s'. requeue_all rts 2 (get_orphaned_jobs (rts 1) order cfg.orphan_job_stale_age s') s')

-- A difference of two times, which Sub keeps within an int64.
abbrev pub saturated : ℤ → ℤ
saturated (pos n) = if ltb n (2 ^ 63) then pos n else pos (2 ^ 63 - 1)
saturated (negsuc n) = if ltb n (2 ^ 63) then negsuc n else negsuc (2 ^ 63 - 1)

-- now.Sub(t)
abbrev pub age_at : ℕ → ℕ → ℤ
age_at now t = saturated (sub_ℕ now t)

-- staleThreshold * 3, an int64
abbrev pub unregister_threshold : ℤ → ℤ
unregister_threshold ttl = int64 (ttl *ℤ pos 3)

-- age > unregisterThreshold
abbrev pub is_dead : ℤ → ℕ → ServerInfo → Bool
is_dead ttl now sv = ltb_ℤ (unregister_threshold ttl) (age_at now sv.last_heartbeat)

unfoldable pub sweep : ℤ → ℕ → List ServerInfo → Store → Store
sweep ttl now [] s = s
sweep ttl now (sv ∷ servers) s =
    sweep ttl now servers (if is_dead ttl now sv then unregister_server sv.id s else s)

-- staleServerSweep; a server that is only stale is logged.
unfoldable pub stale_server_sweep : Runtime → List String → Config → Store → Store
unfolding sweep
stale_server_sweep rt order cfg s =
    sweep cfg.server_heartbeat_ttl (rt.clock 0) (get_servers order s) s

-- tickScheduler: the tickets are dropped and an error is logged.
abbrev only_store : Result (List JobTicket × Store) → Store → Result Store
only_store (ok (ts, t)) s = ok t
only_store (err e) s = ok s
only_store fault s = fault

unfoldable pub tick_scheduler : Runtime → List String → ℕ → Config → Store → Result Store
tick_scheduler rt order now cfg s =
    only_store (get_due_scheduled rt order now cfg.scheduler_batch_size s) s

-- The body of cleanupLoop.
unfoldable pub cleanup_tick : List String → ℕ → Config → Store → Store
cleanup_tick order now cfg s = (remove_expired order (sub_time now cfg.job_retention) s).1
