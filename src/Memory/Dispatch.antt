-- ===== src/Memory/Dispatch.antt =====
-- The loop of Dequeue of memory.go over its queues.
use gfire.Prelude.{
  ◌≡◌, refl, String, Bool, true, false, none, some, List, [], ◌∷◌, ◌++◌, Option-cases, List-cases,
  inl, inr, All, last?-append, last?,
}
use gfire.Prelude.Dict.{insert, eq_self}
use gfire.Prelude.Result.{ok, fault}
use gfire.Job.{Job, JobTicket, Runtime}
use gfire.Memory.{Store, read_list}
use gfire.Memory.Queues
use gfire.Memory.Queues.{dequeue_pass, processing_state}

-- No queue of the list holds an entry.
abbrev pub AllEmpty : List String → Store → Type 0
AllEmpty qs s = All (λ q. read_list q s.queues ≡ []) qs

skip_empty :
    (rt : Runtime) (held : Bool) (before qs : List String) (s : Store)
    → AllEmpty before s
    → dequeue_pass rt held (before ++ qs) s ≡ dequeue_pass rt held qs s
unfolding dequeue_pass
skip_empty rt held [] qs s h = refl
skip_empty rt held (q ∷ before) qs s h = rw (h.0, dequeue_pass) (skip_empty rt held before qs s h.1)

-- The store once the head `id` of the queue `q` is handed out.
abbrev pub handed_out : Runtime → String → String → List String → Store → Store
handed_out rt q id rest s =
    Queues.mark_processing rt id (record s { queues = insert q rest s.queues })

-- Queues are served in the order in which the caller lists them, and each from its front: the
-- first queue that is not empty gives its oldest entry, whose history gets a Processing state; the
-- other entries keep their order.
pub dequeue_pass_serves_front :
    (rt : Runtime) (before after : List String) (q id : String) (rest : List String) (job : Job)
    (s : Store)
    → AllEmpty before s
    → read_list q s.queues ≡ id ∷ rest
    → s.jobs id ≡ some job
    → (t : JobTicket) × (dequeue_pass rt true (before ++ q ∷ after) s
        ≡ ok (some t, handed_out rt q id rest s))
      × (t.job_id ≡ job.id)
      × ((handed_out rt q id rest s).queues q ≡ some rest)
      × (last? (read_list id (handed_out rt q id rest s).job_states)
          ≡ some (processing_state (rt.clock 1)))
unfolding dequeue_pass
dequeue_pass_serves_front rt before after q id rest job s h e f = (
  Queues.ticket rt job id,
  rw (skip_empty rt true before (q ∷ after) s h, e, f, dequeue_pass) refl,
  refl,
  rw (eq_self q) refl,
  rw (eq_self id) (last?-append (read_list id s.job_states) _),
)

-- With every queue of the caller empty a pass finds nothing and changes nothing.
pub dequeue_pass_empty :
    (rt : Runtime) (qs : List String) (s : Store)
    → AllEmpty qs s
    → dequeue_pass rt true qs s ≡ ok (none, s)
unfolding dequeue_pass
dequeue_pass_empty rt [] s h = refl
dequeue_pass_empty rt (q ∷ qs) s h = rw (h.0, dequeue_pass) (dequeue_pass_empty rt qs s h.1)

pub dequeue_pass_unheld :
    (rt : Runtime) (qs : List String) (s : Store) → dequeue_pass rt false qs s ≡ fault
unfolding dequeue_pass
dequeue_pass_unheld rt [] s = refl
dequeue_pass_unheld rt (q ∷ qs) s = elim (List-cases (read_list q s.queues)) [
  | inl e ↦ rw (e, dequeue_pass) (dequeue_pass_unheld rt qs s)
  | inr (id, rest, e) ↦ elim (Option-cases (s.jobs id)) [
    | inl f ↦ rw (e, f, dequeue_pass) refl
    | inr (job, f) ↦ rw (e, f, dequeue_pass) refl
  ]
]

-- A pass of Dequeue that finds, at the front of the first queue that is not empty, an id whose
-- job is not stored crashes the program, whatever the other queues hold.
pub dequeue_pass_crashes :
    (rt : Runtime) (before after : List String) (q id : String) (rest : List String) (s : Store)
    → AllEmpty before s
    → read_list q s.queues ≡ id ∷ rest
    → s.jobs id ≡ none
    → dequeue_pass rt true (before ++ q ∷ after) s ≡ fault
unfolding dequeue_pass
dequeue_pass_crashes rt before after q id rest s h e f =
    rw
      (
        skip_empty rt true before (q ∷ after) s h,
        e,
        f,
        dequeue_pass_unheld rt after (record s { queues = insert q rest s.queues }),
        dequeue_pass,
      )
      refl
