-- ===== src/Api/Retries.antt =====
-- A client that sends a request again: the keys of handleBatchEnqueue.
use mathlib.Core.Bool.{false≢true}
use text.Mathlib.TextLemmas.{append-ne-nil_of_right_ne-nil, cons-ne-nil}
use Prim.Native.String.append
use gfire.Prelude.{
  ℕ, suc, ◌≡◌, ◌≢◌, refl, sym, subst, ◌∙◌, String, true, false, Option, none, some, List, [], ◌∷◌,
  ◌==◌, Bool-cases, Option-cases, inl, inr,
}
use gfire.Prelude.Int.{ℤ}
use gfire.Prelude.Text.{◌<>◌, decimal}
use gfire.Prelude.Dict.{Dict, contains, eq_self, ne_false}
use gfire.Job.{Job, Runtime}
use gfire.Memory.{Store}
use gfire.Memory.Queues.{enqueue, enqueue_idempotent, insert_job}
use gfire.Api.{decoded, EnqueueRequest, requested_job, timeout_of, put_job}
use gfire.Api.Batch.{Progress, key_at, enqueue_at, batch_one, batch_loop, handle_batch_enqueue}

colon : (d : String) → ":" <> d ≢ ""
colon d e = cons-ne-nil ":" ("" <> d) (sym (append.cons ":" "" d) ∙ e)

key_at-nonempty :
    (header : String) (i : ℕ) → (header == "") ≡ false → (key_at header i == "") ≡ false
key_at-nonempty header i h = rw h (
    ne_false (header <> (":" <> decimal i)) ""
      (append-ne-nil_of_right_ne-nil header (colon (decimal i))))

-- A call of the store keeps every key that is used.
put_job-keeps :
    (rt : Runtime) (j : Job) (s : Store) (k : String)
    → contains k s.idempotency ≡ true
    → contains k (put_job rt j s).1.idempotency ≡ true
unfolding put_job enqueue insert_job enqueue_idempotent
put_job-keeps rt j s k h = elim (Bool-cases (j.idempotency_key == "")) [
  | inl e ↦ rw (e, put_job, enqueue) h
  | inr e ↦ elim (Option-cases (s.idempotency j.idempotency_key)) [
    | inr (v, f) ↦ rw (e, f, put_job, enqueue_idempotent) h
    | inl f ↦
        rw (e, f, put_job, enqueue_idempotent)
          (elim (Bool-cases (j.idempotency_key == k)) [ inl g ↦ rw g refl | inr g ↦ rw g h ])
  ]
]

-- A call with a key uses it.
put_job-uses :
    (rt : Runtime) (j : Job) (s : Store)
    → (j.idempotency_key == "") ≡ false
    → contains j.idempotency_key (put_job rt j s).1.idempotency ≡ true
unfolding put_job enqueue_idempotent
put_job-uses rt j s e = elim (Option-cases (s.idempotency j.idempotency_key)) [
  | inr (v, f) ↦ rw (e, f, put_job, enqueue_idempotent) (rw f refl)
  | inl f ↦ rw (e, f, put_job, enqueue_idempotent) (rw (eq_self j.idempotency_key) refl)
]

-- A call with a key that is used changes nothing.
put_job-same :
    (rt : Runtime) (j : Job) (s : Store)
    → (j.idempotency_key == "") ≡ false
    → contains j.idempotency_key s.idempotency ≡ true
    → (put_job rt j s).1 ≡ s
unfolding put_job enqueue_idempotent
put_job-same rt j s e h = elim (Option-cases (s.idempotency j.idempotency_key)) [
  | inr (v, f) ↦ rw (e, f, put_job, enqueue_idempotent) refl
  | inl f ↦ absurd (false≢true (rw f at h))
]

module _ (parse_duration : String → Option ℤ) (header : String) where
  -- A request that the loop hands to the store.
  abbrev IsTaken : EnqueueRequest → Option ℤ → Type 0
  IsTaken req none = ⊥
  IsTaken req (some timeout) = (req.name == "") ≡ false

  -- Every request that is handed to the store finds its key used.
  abbrev AllUsed : ℕ → List EnqueueRequest → Dict String → Type 0
  AllUsed i [] keys = Unit
  AllUsed i (req ∷ reqs) keys =
      (IsTaken req (timeout_of parse_duration req.timeout) → contains (key_at header i) keys ≡ true)
      × AllUsed (suc i) reqs keys

  enqueue_at-keeps :
      (rt : Runtime) (i : ℕ) (req : EnqueueRequest) (o : Option ℤ) (p : Progress) (k : String)
      → contains k p.store.idempotency ≡ true
      → contains k (enqueue_at rt header i req o p).store.idempotency ≡ true
  enqueue_at-keeps rt i req none p k h = h
  enqueue_at-keeps rt i req (some timeout) p k h =
      put_job-keeps rt (requested_job req timeout (key_at header i)) p.store k h

  batch_one-keeps :
      (rts : ℕ → Runtime) (i : ℕ) (req : EnqueueRequest) (p : Progress) (k : String)
      → contains k p.store.idempotency ≡ true
      → contains k (batch_one parse_duration rts header i req p).store.idempotency ≡ true
  unfolding batch_one
  batch_one-keeps rts i req p k h = elim (Bool-cases (req.name == "")) [
    | inl e ↦ rw (e, batch_one) h
    | inr e ↦
        rw (e, batch_one)
          (enqueue_at-keeps (rts i) i req (timeout_of parse_duration req.timeout) p k h)
  ]

  batch_loop-keeps :
      (rts : ℕ → Runtime) (i : ℕ) (reqs : List EnqueueRequest) (p : Progress) (k : String)
      → contains k p.store.idempotency ≡ true
      → contains k (batch_loop parse_duration rts header i reqs p).store.idempotency ≡ true
  unfolding batch_loop
  batch_loop-keeps rts i [] p k h = h
  batch_loop-keeps rts i (req ∷ reqs) p k h =
      batch_loop-keeps rts (suc i) reqs (batch_one parse_duration rts header i req p) k
        (batch_one-keeps rts i req p k h)

  module _ (given : (header == "") ≡ false) where
    enqueue_at-uses :
        (rt : Runtime) (i : ℕ) (req : EnqueueRequest) (o : Option ℤ) (p : Progress)
        → IsTaken req o
        → contains (key_at header i) (enqueue_at rt header i req o p).store.idempotency ≡ true
    enqueue_at-uses rt i req none p taken = elim taken [ ]
    enqueue_at-uses rt i req (some timeout) p taken =
        put_job-uses rt (requested_job req timeout (key_at header i)) p.store
          (key_at-nonempty header i given)

    named : (req : EnqueueRequest) (o : Option ℤ) → IsTaken req o → (req.name == "") ≡ false
    named req none taken = elim taken [ ]
    named req (some timeout) taken = taken

    batch_one-uses :
        (rts : ℕ → Runtime) (i : ℕ) (req : EnqueueRequest) (p : Progress)
        → IsTaken req (timeout_of parse_duration req.timeout)
        → contains (key_at header i) (batch_one parse_duration rts header i req p).store.idempotency
          ≡ true
    unfolding batch_one
    batch_one-uses rts i req p taken =
        rw (named req (timeout_of parse_duration req.timeout) taken, batch_one)
          (enqueue_at-uses (rts i) i req (timeout_of parse_duration req.timeout) p taken)

    batch_loop-AllUsed :
        (rts : ℕ → Runtime) (i : ℕ) (reqs : List EnqueueRequest) (p : Progress)
        → AllUsed i reqs (batch_loop parse_duration rts header i reqs p).store.idempotency
    unfolding batch_loop
    batch_loop-AllUsed rts i [] p = tt
    batch_loop-AllUsed rts i (req ∷ reqs) p = (
      λ taken.
          batch_loop-keeps rts (suc i) reqs (batch_one parse_duration rts header i req p)
            (key_at header i) (batch_one-uses rts i req p taken),
      batch_loop-AllUsed rts (suc i) reqs (batch_one parse_duration rts header i req p),
    )

    enqueue_at-same :
        (rt : Runtime) (i : ℕ) (req : EnqueueRequest) (o : Option ℤ) (p : Progress)
        → (req.name == "") ≡ false
        → (IsTaken req o → contains (key_at header i) p.store.idempotency ≡ true)
        → (enqueue_at rt header i req o p).store ≡ p.store
    enqueue_at-same rt i req none p n used = refl
    enqueue_at-same rt i req (some timeout) p n used =
        put_job-same rt (requested_job req timeout (key_at header i)) p.store
          (key_at-nonempty header i given) (used n)

    batch_one-same :
        (rts : ℕ → Runtime) (i : ℕ) (req : EnqueueRequest) (p : Progress)
        → (IsTaken req (timeout_of parse_duration req.timeout)
            → contains (key_at header i) p.store.idempotency ≡ true)
        → (batch_one parse_duration rts header i req p).store ≡ p.store
    unfolding batch_one
    batch_one-same rts i req p used = elim (Bool-cases (req.name == "")) [
      | inl e ↦ rw (e, batch_one) refl
      | inr e ↦
          rw (e, batch_one)
            (enqueue_at-same (rts i) i req (timeout_of parse_duration req.timeout) p e used)
    ]

    batch_loop-same :
        (rts : ℕ → Runtime) (i : ℕ) (reqs : List EnqueueRequest) (p : Progress)
        → AllUsed i reqs p.store.idempotency
        → (batch_loop parse_duration rts header i reqs p).store ≡ p.store
    unfolding batch_loop
    batch_loop-same rts i [] p used = refl
    batch_loop-same rts i (req ∷ reqs) p used =
        let same = batch_one-same rts i req p used.0 in
        batch_loop-same rts (suc i) reqs (batch_one parse_duration rts header i req p)
          (subst (λ (t : Store). AllUsed (suc i) reqs t.idempotency) (sym same) used.1)
        ∙ same

-- A batch with an Idempotency-Key that is sent again, whatever has failed in it, leaves the store
-- as the first request left it.
pub handle_batch_enqueue_twice :
    (parse_duration : String → Option ℤ) (rts rts' : ℕ → Runtime) (header : String)
    (reqs : List EnqueueRequest) (s : Store)
    → (header == "") ≡ false
    → let (reply, t) = handle_batch_enqueue parse_duration rts header (decoded reqs) s in
      (handle_batch_enqueue parse_duration rts' header (decoded reqs) t).1 ≡ t
unfolding handle_batch_enqueue
handle_batch_enqueue_twice parse_duration rts rts' header [] s given = refl
handle_batch_enqueue_twice parse_duration rts rts' header (req ∷ reqs) s given =
    batch_loop-same parse_duration header given rts' 0 (req ∷ reqs)
      (record {
        accepted = [];
        rejected = [];
        store =
            (batch_loop parse_duration rts header 0 (req ∷ reqs)
              (record { accepted = []; rejected = []; store = s })).store;
      })
      (batch_loop-AllUsed parse_duration header given rts 0 (req ∷ reqs)
        (record { accepted = []; rejected = []; store = s }))
