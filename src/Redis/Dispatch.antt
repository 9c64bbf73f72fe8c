-- ===== src/Redis/Dispatch.antt =====
-- internal/storage/redis/jobs.go: Dequeue.
use gfire.Prelude.{
  ℕ, zero, suc, ◌+◌, ◌≤◌, ◌<◌, ◌≡◌, ◌⊎◌, refl, sym, ap, subst, ◌∙◌, String, true, Option, none,
  some, List, [], ◌∷◌, ◌++◌, ◌==◌, inl, inr, length, length-append, All, arith, map, Bool-cases,
  eq_iff,
}
use gfire.Prelude.Dict.{is_some, eq_self}
use gfire.Prelude.Result.{Result, ok}
use gfire.Job.{JobTicket, Runtime, state_processing}
use gfire.Redis.{Redis, Command, World, put, apply_all, quiet}
use gfire.Redis.Keys.{job_key, queue_key, processing_key}
use gfire.Redis.Codec.{Codec}
use gfire.Redis.Queues.{
  dequeue, dequeue_loop, after_pop, finalize_dequeue, finalize_commands, ticket, processing_value,
}
use gfire.Redis.Apart.{job_states_key-queue_key, processing_key-job_key}
use gfire.Redis.Laws.{view-apply_all, Trip-cases}

-- The length of all lists at the keys.
abbrev pub total : (String → List String) → List String → ℕ
total lists [] = 0
total lists (k ∷ ks) = length (lists k) + total lists ks

-- A list has a last element or none.
last-cases :
    (xs : List String) → (xs ≡ []) ⊎ ((ys : List String) × (x : String) × (xs ≡ ys ++ x ∷ []))
last-cases [] = inl refl
last-cases (y ∷ ys) = elim (last-cases ys) [
  | inl e ↦ inr ([], y, ap (λ l. y ∷ l) e)
  | inr (zs, x, e) ↦ inr (y ∷ zs, x, ap (λ l. y ∷ l) e)
]

module _ (lists : String → List String) where
  -- All keys are empty, or there is a first one that is not.
  abbrev Found : List String → Type 0
  Found ks =
      (before : List String) × (k : String) × (after xs : List String) × (x : String) × (ks
        ≡ before ++ k ∷ after)
      × All (λ j. lists j ≡ []) before
      × (lists k ≡ xs ++ x ∷ [])

  first-cases : (ks : List String) → All (λ j. lists j ≡ []) ks ⊎ Found ks
  first-cases [] = inl tt
  first-cases (k ∷ ks) = elim (last-cases (lists k)) [
    | inr (xs, x, e) ↦ inr ([], k, ks, xs, x, refl, tt, e)
    | inl e ↦ elim (first-cases ks) [
      | inl h ↦ inl (e, h)
      | inr (before, j, after, xs, x, p, h, q) ↦
          inr (k ∷ before, j, after, xs, x, ap (λ l. k ∷ l) p, (e, h), q)
    ]
  ]

  module _ (k : String) (xs : List String) (x : String) (e : lists k ≡ xs ++ x ∷ []) where
    shorter : (j : String) → length (put k xs lists j) ≤ length (lists j)
    shorter j = elim (Bool-cases (k == j)) [
      | inl same ↦ rw same (
          omega (
            arith,
            ap length (ap lists (sym ((eq_iff k j).0 same)) ∙ e),
            length-append xs (x ∷ []),
          ))
      | inr other ↦ rw other (omega arith)
    ]

    total-put : (ks : List String) → total (put k xs lists) ks ≤ total lists ks
    total-put [] = omega arith
    total-put (j ∷ ks) = omega (arith, shorter j, total-put ks)

    total-put_found :
        (before after : List String)
        → total (put k xs lists) (before ++ k ∷ after) < total lists (before ++ k ∷ after)
    total-put_found [] after =
        omega (arith, here, ap length e, length-append xs (x ∷ []), total-put after)
      where
        here : length (put k xs lists k) ≡ length xs
        here = rw (eq_self k) refl
    total-put_found (j ∷ before) after = omega (arith, shorter j, total-put_found before after)

module _ (r : Redis) where
  abbrev pub queued_total : r.Db → List String → ℕ
  queued_total d ks = total (r.view d).lists ks

  -- BRPOP takes one element off the lists, when it returns one.
  abbrev Popped : List String → r.Db → Option String × r.Db → Type 0
  Popped ks d (none, d') = Unit
  Popped ks d (some id, d') = queued_total d' ks < queued_total d ks

  Popped-none :
      (ks : List String) (d : r.Db) (p : Option String × r.Db) → p ≡ (none, d) → Popped ks d p
  Popped-none ks d p e = subst (Popped ks d) (sym e) tt

  Popped-some :
      (ks : List String) (d : r.Db) (p : Option String × r.Db) (id : String)
      (lists : String → List String)
      → p.0 ≡ some id
      → r.view p.1 ≡ record (r.view d) { lists = lists }
      → total lists ks < queued_total d ks
      → Popped ks d p
  Popped-some ks d (none, d') id lists e v h = tt
  Popped-some ks d (some x, d') id lists e v h = rw v h

  brpop-Popped : (ks : List String) (d : r.Db) → Popped ks d (r.brpop ks d)
  brpop-Popped ks d = elim (first-cases (r.view d).lists ks) [
    | inl h ↦ Popped-none ks d (r.brpop ks d) (r.brpop_empty ks d h)
    | inr (before, k, after, xs, x, p, h, e) ↦
        subst (λ l. Popped l d (r.brpop l d)) (sym p)
          (Popped-some (before ++ k ∷ after) d (r.brpop (before ++ k ∷ after) d) x
            (put k xs (r.view d).lists) (r.brpop_last before k after xs x d h e).0
            (r.brpop_last before k after xs x d h e).1
            (total-put_found (r.view d).lists k xs x e before after))
  ]

  module _ (c : Codec) (w : World r.Db) (rt : Runtime) (server : String) (ks : List String)
      (h : (i : ℕ) (d : r.Db) → queued_total (w.meanwhile i d) ks ≤ queued_total d ks) where
    after_pop_ends :
        (i now : ℕ) (d : r.Db) (p : Option String × r.Db)
        (again : r.Db → Option (Result JobTicket × r.Db))
        → Popped ks d p
        → ((d' : r.Db) → queued_total d' ks < queued_total d ks → is_some (again d') ≡ true)
        → is_some (after_pop r c w i server now p again) ≡ true
    unfolding finalize_dequeue
    after_pop_ends i now d (none, d') again l next = refl
    after_pop_ends i now d (some id, d') again l next = elim (Trip-cases (w.trip i)) [
      | inr (n, e) ↦ rw (after_pop, e) refl
      | inl e ↦ elim (Bool-cases (r.exists (job_key id) (w.meanwhile i d'))) [
        | inl f ↦ rw (after_pop, e, finalize_dequeue, f) refl
        | inr f ↦
            rw (after_pop, e, finalize_dequeue, f)
              (next (w.meanwhile i d') (omega (arith, h i d', l)))
      ]
    ]

    loop_ends :
        (fuel i : ℕ) (d : r.Db)
        → queued_total d ks < fuel
        → is_some (dequeue_loop r c fuel w i rt server ks d) ≡ true
    unfolding dequeue_loop
    loop_ends zero i d l = absurd (omega (arith, l))
    loop_ends (suc fuel) i d l = elim (Trip-cases (w.trip i)) [
      | inr (n, e) ↦ rw (dequeue_loop, e) refl
      | inl e ↦
          rw (dequeue_loop, e)
            (after_pop_ends (i + 1) (rt.clock i) (w.meanwhile i d) (r.brpop ks (w.meanwhile i d))
              (dequeue_loop r c fuel w (i + 2) rt server ks) (brpop-Popped ks (w.meanwhile i d))
              (λ d' l'. loop_ends fuel (i + 2) d' (omega (arith, h i d, l', l))))
    ]

  -- Dequeue returns: as long as no other client adds to its queues meanwhile, one turn more than they
  -- hold ids is enough, whichever round trips fail and whichever ids have lost their job.
  pub dequeue_terminates :
      (c : Codec) (w : World r.Db) (rt : Runtime) (server : String) (queues : List String)
      → ((i : ℕ) (d : r.Db)
          → queued_total (w.meanwhile i d) (map queue_key queues)
            ≤ queued_total d (map queue_key queues))
      → (fuel : ℕ) (d : r.Db) → queued_total d (map queue_key queues) < fuel
      → is_some (dequeue r c fuel w rt server queues d) ≡ true
  unfolding dequeue
  dequeue_terminates c w rt server [] h fuel d l = refl
  dequeue_terminates c w rt server (q ∷ queues) h fuel d l =
      loop_ends c w rt server (map queue_key (q ∷ queues)) h fuel 0 d l

  map-append :
      (f : String → String) (xs : List String) (y : String) (ys : List String)
      → map f (xs ++ y ∷ ys) ≡ map f xs ++ f y ∷ map f ys
  map-append f [] y ys = refl
  map-append f (x ∷ xs) y ys = ap (λ l. f x ∷ l) (map-append f xs y ys)

  All-map :
      (d : r.Db) (xs : List String)
      → All (λ j. (r.view d).lists (queue_key j) ≡ []) xs
      → All (λ k. (r.view d).lists k ≡ []) (map queue_key xs)
  All-map d [] h = tt
  All-map d (x ∷ xs) (e, h) = (e, All-map d xs h)

  module _ (c : Codec) (rt : Runtime) (server : String) where
    -- What Dequeue makes of a job: its id has left the queue, its hash says that it runs, and the
    -- server is on record for it.
    abbrev pub Serves : String → String → List String → Option (Result JobTicket × r.Db) → Type 0
    Serves q id xs out =
        (d : r.Db) × (out ≡ some (ok (ticket r c id (rt.clock 0)), d))
        × ((r.view d).lists (queue_key q) ≡ xs)
        × ((r.view d).hashes (job_key id) "state" ≡ some state_processing)
        × ((r.view d).hashes processing_key id ≡ some (processing_value r c server id (rt.clock 0)))

    finish :
        (q id : String) (xs : List String) (f v : String) (d d' : r.Db)
        → r.view d' ≡ record (r.view d) { lists = put (queue_key q) xs (r.view d).lists }
        → (r.view d).hashes (job_key id) f ≡ some v
        → (again : r.Db → Option (Result JobTicket × r.Db))
        → Serves q id xs (after_pop r c quiet 1 server (rt.clock 0) (some id, d') again)
    unfolding finalize_dequeue
    finish q id xs f v d d' e h again =
        let e' : r.exists (job_key id) d' ≡ true = r.exists_some (job_key id) f v d' (rw e h) in
        let commands : List Command = finalize_commands r c server id (rt.clock 0) in
        (
          apply_all r commands d',
          rw (after_pop, finalize_dequeue, e') refl,
          rw (view-apply_all r commands d', e, job_states_key-queue_key id q, eq_self (queue_key q))
              refl,
          rw (view-apply_all r commands d', e, processing_key-job_key id, eq_self (job_key id))
              refl,
          rw (view-apply_all r commands d', eq_self id) refl,
        )

    finish_popped :
        (q id : String) (xs : List String) (f v : String) (d : r.Db) (p : Option String × r.Db)
        → p.0 ≡ some id
        → r.view p.1 ≡ record (r.view d) { lists = put (queue_key q) xs (r.view d).lists }
        → (r.view d).hashes (job_key id) f ≡ some v
        → (again : r.Db → Option (Result JobTicket × r.Db))
        → Serves q id xs (after_pop r c quiet 1 server (rt.clock 0) p again)
    finish_popped q id xs f v d (none, d') e l h again = absurd (none-some e)
      where
        none-some : {x : String} → none ≡ some x → ⊥
        none-some e = cc
    finish_popped q id xs f v d (some x, d') e l h again =
        subst (λ y. Serves q id xs (after_pop r c quiet 1 server (rt.clock 0) (y, d') again))
          (sym e) (finish q id xs f v d d' l h again)

    dequeue-loop :
        (fuel : ℕ) (before after : List String) (q : String) (d : r.Db)
        → dequeue r c fuel quiet rt server (before ++ q ∷ after) d
          ≡ dequeue_loop r c fuel quiet 0 rt server (map queue_key (before ++ q ∷ after)) d
    unfolding dequeue
    dequeue-loop fuel [] after q d = refl
    dequeue-loop fuel (j ∷ before) after q d = refl

    -- On its own Dequeue serves the id at the tail of the first queue, in the given order, that has
    -- one, if the job's hash is there: the id leaves the queue, which keeps the rest, the hash says
    -- Processing, and the server and a token are written down for the job.
    pub dequeue-Serves :
        (before after : List String) (q id : String) (xs : List String) (f v : String) (d : r.Db)
        (fuel : ℕ)
        → All (λ j. (r.view d).lists (queue_key j) ≡ []) before
        → (r.view d).lists (queue_key q) ≡ xs ++ id ∷ []
        → (r.view d).hashes (job_key id) f ≡ some v
        → Serves q id xs (dequeue r c (suc fuel) quiet rt server (before ++ q ∷ after) d)
    unfolding dequeue_loop
    dequeue-Serves before after q id xs f v d fuel h e k =
        let keys : List String = map queue_key before ++ queue_key q ∷ map queue_key after in
        let popped =
          r.brpop_last (map queue_key before) (queue_key q) (map queue_key after) xs id d
            (All-map d before h) e in
        subst (Serves q id xs) (sym (dequeue-loop (suc fuel) before after q d)) (
          subst (λ ks. Serves q id xs (dequeue_loop r c (suc fuel) quiet 0 rt server ks d))
            (sym (map-append queue_key before q after))
            (finish_popped q id xs f v d (r.brpop keys d) popped.0 popped.1 k
              (dequeue_loop r c fuel quiet 2 rt server keys)))
