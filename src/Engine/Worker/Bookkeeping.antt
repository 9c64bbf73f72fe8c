-- ===== src/Engine/Worker/Bookkeeping.antt =====
-- The deferred calls of processTicket in internal/engine/worker.go.
use gfire.Prelude.{◌≡◌, refl, String, none, ◌==◌, if◌then◌else◌, Bool-cases, inl, inr}
use gfire.Prelude.Result.{Result, ok, err, fault}
use gfire.Job.{JobTicket, JobWithStates}
use gfire.Engine.Limits.{active_in, dec_active-inc_active, register_cancel, unregister_cancel}
use gfire.Engine.Storage.{Storage}
use gfire.Engine.Worker.{Json, InFlight, RunWorld, process, process_ticket}

-- The cancel function of the job of the ticket is gone; every other is as it was.
abbrev pub OwnOrSame : Result JobWithStates → String → InFlight → InFlight → Type 0
OwnOrSame (ok jw) id f g = g.cancels id ≡ (if jw.job.id == id then none else f.cancels id)
OwnOrSame (err e) id f g = g.cancels id ≡ f.cancels id
OwnOrSame fault id f g = g.cancels id ≡ f.cancels id

-- Every count and every cancel function but the job's own is as before the ticket; the job's is
-- gone.
abbrev pub IsReleased : Result JobWithStates → InFlight → InFlight → Type 0
IsReleased r f g =
    ((q : String) → active_in q g.active ≡ active_in q f.active)
    × ((id : String) → OwnOrSame r id f g)

-- After processTicket, however the run ended and also when the job was not found, every count of
-- running jobs is what it was; the cancel function of the job is gone if it was found, and no
-- other is touched.
pub process_ticket-IsReleased :
    (st : Storage) (json : Json) (w : RunWorld st.State) (ticket : JobTicket) (s : st.State)
    (f : InFlight)
    → IsReleased (st.get_job ticket.job_id s) f (process_ticket st json w ticket s f).1
unfolding process_ticket register_cancel unregister_cancel
process_ticket-IsReleased st json w ticket s f = cases (st.get_job ticket.job_id s)
  where
    cases : (r : Result JobWithStates) → IsReleased r f (process st json w r s f).1
    cases (ok jw) = (
      λ q. (dec_active-inc_active jw.job.queue q f.active).1,
      λ id. elim (Bool-cases (jw.job.id == id)) [ inl e ↦ rw e refl | inr e ↦ rw e refl ],
    )
    cases (err e) = (λ q. refl, λ id. refl)
    cases fault = (λ q. refl, λ id. refl)
