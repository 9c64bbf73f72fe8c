-- ===== src/Engine/Limits.antt =====
-- internal/engine/engine.go: the jobs in flight, the limits per queue and the running jobs'
-- cancel functions; and the back-off of an idle worker in worker.go. A count is never negative.
use gfire.Prelude.{
  ℕ, zero, suc, ◌+◌, ◌*◌, ◌^◌, ◌-◌, ◌≡◌, min, refl, ap, ◌∙◌, String, Bool, true, false, ◌||◌, List,
  [], ◌∷◌, ◌==◌, if◌then◌else◌, arith, ltb, Option, none, some, eq_iff, Bool-cases, inl, inr, ◌⊎◌,
  In, ◌↔◌,
}
use gfire.Prelude.Int.{ℤ, pos, leb_ℤ, ltb_ℤ}
use gfire.Prelude.Dict.{Dict, insert, erase}
use mathlib.Core.Bool.{false≢true}
use native.Mathlib.Nat.{pow-suc}

abbrev count_or_zero : Option ℕ → ℕ
count_or_zero none = 0
count_or_zero (some n) = n

-- e.active[queue]
abbrev pub active_in : String → Dict ℕ → ℕ
active_in q active = count_or_zero (active q)

-- incActive
unfoldable pub inc_active : String → Dict ℕ → Dict ℕ
inc_active q active = insert q (active_in q active + 1) active

-- decActive
unfoldable pub dec_active : String → Dict ℕ → Dict ℕ
dec_active q active =
    if ltb 0 (active_in q active) then insert q (active_in q active - 1) active else active

abbrev limit_or_zero : Option ℤ → ℤ
limit_or_zero none = pos 0
limit_or_zero (some n) = n

abbrev pub has_room : Dict ℤ → Dict ℕ → String → Bool
has_room limits active q =
    leb_ℤ (limit_or_zero (limits q)) (pos 0)
    || ltb_ℤ (pos (active_in q active)) (limit_or_zero (limits q))

-- queuesUnderLimit
unfoldable pub queues_under_limit : List String → Dict ℤ → Dict ℕ → List String
queues_under_limit [] limits active = []
queues_under_limit (q ∷ queues) limits active =
    let rest = queues_under_limit queues limits active in
    if has_room limits active q then q ∷ rest else rest

-- registerCancel and unregisterCancel; a cancel function is named by its job.
unfoldable pub register_cancel {ℓ} : {C : Type ℓ} → String → C → Dict C → Dict C
register_cancel id cancel cancels = insert id cancel cancels

unfoldable pub unregister_cancel {ℓ} : {C : Type ℓ} → String → Dict C → Dict C
unregister_cancel id cancels = erase id cancels

active_in-insert :
    (q k : String) (n : ℕ) (active : Dict ℕ)
    → active_in k (insert q n active) ≡ (if q == k then n else active_in k active)
active_in-insert q k n active = elim (Bool-cases (q == k)) [ inl e ↦ rw e refl | inr e ↦ rw e refl ]

active_in-inc_active :
    (q k : String) (active : Dict ℕ)
    → active_in k (inc_active q active) ≡ active_in k active + (if q == k then 1 else 0)
unfolding inc_active
active_in-inc_active q k active =
    active_in-insert q k (active_in q active + 1) active ∙ step (Bool-cases (q == k))
  where
    step :
        ((q == k) ≡ true) ⊎ ((q == k) ≡ false)
        → (if q == k then active_in q active + 1 else active_in k active)
          ≡ active_in k active + (if q == k then 1 else 0)
    step (inl e) = rw e (ap (λ i. active_in i active + 1) ((eq_iff q k).0 e))
    step (inr e) = rw e (omega arith)

active_in-dec_active :
    (q k : String) (active : Dict ℕ)
    → active_in k (dec_active q active) ≡ active_in k active - (if q == k then 1 else 0)
unfolding dec_active
active_in-dec_active q k active = elim (Bool-cases (ltb 0 (active_in q active))) [
  | inl p ↦ rw p (step (Bool-cases (q == k)))
  | inr p ↦ rw p (none_left (Bool-cases (q == k)) p)
]
  where
    same : (q == k) ≡ true → active_in q active ≡ active_in k active
    same e = ap (λ i. active_in i active) ((eq_iff q k).0 e)

    step :
        ((q == k) ≡ true) ⊎ ((q == k) ≡ false)
        → active_in k (insert q (active_in q active - 1) active)
          ≡ active_in k active - (if q == k then 1 else 0)
    step (inl e) = rw e (ap (λ n. n - 1) (same e))
    step (inr e) = rw e (omega arith)

    none_left :
        ((q == k) ≡ true) ⊎ ((q == k) ≡ false)
        → ltb 0 (active_in q active) ≡ false
        → active_in k active ≡ active_in k active - (if q == k then 1 else 0)
    none_left (inl e) p = rw e (ground (arith, same e))
    none_left (inr e) p = rw e (omega arith)

-- A job is counted in its queue while it runs, and afterwards every count is what it was.
pub dec_active-inc_active :
    (q k : String) (active : Dict ℕ)
    → (active_in k (inc_active q active) ≡ active_in k active + (if q == k then 1 else 0))
      × (active_in k (dec_active q (inc_active q active)) ≡ active_in k active)
dec_active-inc_active q k active = (
  active_in-inc_active q k active,
  omega (arith, active_in-dec_active q k (inc_active q active), active_in-inc_active q k active),
)

In-if :
    (b : Bool) (x q : String) (xs : List String)
    → In q (if b then x ∷ xs else xs) ↔ (((q ≡ x) × (b ≡ true)) ⊎ In q xs)
In-if true x q xs = (
  λ m. elim m [ inl e ↦ inl (e, refl) | inr n ↦ inr n ],
  λ m. elim m [ inl e ↦ inl e.0 | inr n ↦ inr n ],
)
In-if false x q xs = (λ m. inr m, λ m. elim m [ inl e ↦ absurd (false≢true e.1) | inr n ↦ n ])

-- A worker asks for exactly the configured queues with no limit or with fewer jobs in flight.
pub queues_under_limit_lem :
    (queues : List String) (limits : Dict ℤ) (active : Dict ℕ) (q : String)
    → In q (queues_under_limit queues limits active)
      ↔ (In q queues × (has_room limits active q ≡ true))
unfolding queues_under_limit
queues_under_limit_lem [] limits active q = (λ m. elim m [ ], λ m. m.0)
queues_under_limit_lem (x ∷ queues) limits active q =
    let rest = queues_under_limit_lem queues limits active q in
    let here = In-if (has_room limits active x) x q (queues_under_limit queues limits active) in
    (
      λ m. elim (here.0 m) [
        | inl (e, room) ↦ (inl e, rw e room)
        | inr n ↦ (inr (rest.0 n).0, (rest.0 n).1)
      ],
      λ m. here.1 (elim m.0 [ inl e ↦ inl (e, rw (← e) m.1) | inr n ↦ inr (rest.1 (n, m.1)) ]),
    )

abbrev pub millisecond : ℕ
millisecond = 1_000_000

-- `backoff *= 2`, with its cap.
abbrev next_backoff : ℕ → ℕ
next_backoff backoff =
    if ltb (2000 * millisecond) (backoff * 2) then 2000 * millisecond else backoff * 2

-- The wait of a worker before its n-th look for a queue under its limit.
unfoldable pub backoff_after : ℕ → ℕ
backoff_after zero = 100 * millisecond
backoff_after (suc n) = next_backoff (backoff_after n)

-- The waits double from 100 ms and stay at 2 s from there on.
pub backoff_after_lem :
    (n : ℕ) → backoff_after n ≡ min (100 * millisecond * 2 ^ n) (2000 * millisecond)
unfolding backoff_after
backoff_after_lem zero = refl
backoff_after_lem (suc n) = ground (arith, backoff_after_lem n, pow-suc 2 n)
