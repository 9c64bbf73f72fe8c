-- ===== src/Memory/Due/Collect.antt =====
-- The first loop of GetDueScheduled of memory.go: which ids it collects, and how many.
use gfire.Prelude.{
  ℕ, ◌+◌, ◌≡◌, ◌<◌, ◌≤◌, refl, sym, subst, String, Bool, true, false, Option, none, some, List, [],
  ◌∷◌, ◌++◌, arith, inl, inr, ◌⊎◌, if◌then◌else◌, In, length, length-append, max,
}
use gfire.Prelude.Int.{ℤ, pos, leb_ℤ}
use gfire.Prelude.Dict.{Dict, is_some}
use gfire.Memory.Scheduled.{collect_due, is_due}

due_after : Bool → List String → String → List String
due_after d due k = if d then due ++ k ∷ [] else due

In-snoc : {A : Type 0} (a : A) (xs : List A) (b : A) → In a (xs ++ b ∷ []) → In a xs ⊎ (a ≡ b)
In-snoc a [] b (inl e) = inr e
In-snoc a [] b (inr m) = elim m [ ]
In-snoc a (x ∷ xs) b (inl e) = inl (inl e)
In-snoc a (x ∷ xs) b (inr m) = elim (In-snoc a xs b m) [ inl n ↦ inl (inr n) | inr e ↦ inr e ]

pub is_due-known : (o : Option ℕ) (now : ℕ) → is_due o now ≡ true → is_some o ≡ true
is_due-known none now h = h
is_due-known (some t) now h = refl

module _ (P : String → Type 0) (now : ℕ) (batch : ℤ) (scheduled : Dict ℕ)
    (one : (id : String) → is_due (scheduled id) now ≡ true → P id) where
  due_after_all :
      (d : Bool) (due : List String) (k : String)
      → (d ≡ true → P k)
      → ((id : String) → In id due → P id)
      → (id : String) → In id (due_after d due k)
      → P id
  unfolding due_after
  due_after_all true due k new all id m = elim (In-snoc id due k m) [
    | inl n ↦ all id n
    | inr e ↦ subst P (sym e) (new refl)
  ]
  due_after_all false due k new all id m = all id m

  either :
      (b : Bool) (xs ys : List String) (id : String)
      → In id (if b then xs else ys)
      → In id xs ⊎ In id ys
  either true xs ys id m = inl m
  either false xs ys id m = inr m

  -- A property of the jobs collected so far and of each that is due holds of all that are collected.
  pub collect_due_induction :
      (order due : List String)
      → ((id : String) → In id due → P id)
      → (id : String) → In id (collect_due now batch order scheduled due)
      → P id
  unfolding collect_due due_after
  collect_due_induction [] due all id m = all id m
  collect_due_induction (k ∷ order) due all id m =
      let due' : List String = due_after (is_due (scheduled k) now) due k in
      let all' : (j : String) → In j due' → P j =
        due_after_all (is_due (scheduled k) now) due k (one k) all in
      elim (either (leb_ℤ batch (pos (length due'))) due'
        (collect_due now batch order scheduled due') id m) [
          | inl n ↦ all' id n
          | inr n ↦ collect_due_induction order due' all' id n
        ]

length-due_after :
    (d : Bool) (due : List String) (k : String) → length (due_after d due k) ≤ length due + 1
unfolding due_after
length-due_after true due k = omega (arith, length-append due (k ∷ []))
length-due_after false due k = omega arith

length-if :
    (b : Bool) (xs ys : List String) (n : ℕ)
    → (b ≡ true → length xs ≤ n)
    → (b ≡ false → length ys ≤ n)
    → length (if b then xs else ys) ≤ n
length-if true xs ys n h k = h refl
length-if false xs ys n h k = k refl

below_batch : (batch n : ℕ) → leb_ℤ (pos batch) (pos n) ≡ false → n < max 1 batch
below_batch batch n h = ground arith

open_batch : (batch n : ℕ) → n < batch → leb_ℤ (pos batch) (pos n) ≡ false
open_batch batch n h = ground arith

-- The batch holds at most `batch` jobs, and at most one if that is none.
pub collect_due-length :
    (now batch : ℕ) (order : List String) (scheduled : Dict ℕ) (due : List String)
    → length due < max 1 batch
    → length (collect_due now (pos batch) order scheduled due) ≤ max 1 batch
unfolding collect_due due_after
collect_due-length now batch [] scheduled due h = omega arith
collect_due-length now batch (k ∷ order) scheduled due h =
    let due' : List String = due_after (is_due (scheduled k) now) due k in
    length-if (leb_ℤ (pos batch) (pos (length due'))) due'
      (collect_due now (pos batch) order scheduled due') (max 1 batch)
      (λ e. omega (arith, length-due_after (is_due (scheduled k) now) due k))
      (λ e. collect_due-length now batch order scheduled due' (below_batch batch (length due') e))

In-append_left : (a : String) (xs ys : List String) → In a xs → In a (xs ++ ys)
In-append_left a [] ys m = elim m [ ]
In-append_left a (x ∷ xs) ys (inl e) = inl e
In-append_left a (x ∷ xs) ys (inr m) = inr (In-append_left a xs ys m)

In-append_last : (a : String) (xs : List String) → In a (xs ++ a ∷ [])
In-append_last a [] = inl refl
In-append_last a (x ∷ xs) = inr (In-append_last a xs)

In-due_after :
    (d : Bool) (due : List String) (k id : String) → In id due → In id (due_after d due k)
unfolding due_after
In-due_after true due k id m = In-append_left id due (k ∷ []) m
In-due_after false due k id m = m

carry :
    (now : ℕ) (order : List String) (scheduled : Dict ℕ) (due : List String) (k id : String)
    → In id due ⊎ (In id (k ∷ order) × (is_due (scheduled id) now ≡ true))
    → In id (due_after (is_due (scheduled k) now) due k)
      ⊎ (In id order × (is_due (scheduled id) now ≡ true))
unfolding due_after
carry now order scheduled due k id (inl m) =
    inl (In-due_after (is_due (scheduled k) now) due k id m)
carry now order scheduled due k id (inr (inl e, ready)) = inl (
    subst (λ i. In i (due_after (is_due (scheduled k) now) due k)) (sym e)
      (rw (subst (λ i. is_due (scheduled i) now ≡ true) e ready) (In-append_last k due)))
carry now order scheduled due k id (inr (inr m, ready)) = inr (m, ready)

-- While the batch has room for every visited job, each one that is due is collected.
pub collect_due_complete :
    (now batch : ℕ) (order : List String) (scheduled : Dict ℕ) (due : List String) (id : String)
    → length due + length order < batch
    → In id due ⊎ (In id order × (is_due (scheduled id) now ≡ true))
    → In id (collect_due now (pos batch) order scheduled due)
unfolding collect_due due_after
collect_due_complete now batch [] scheduled due id room (inl m) = m
collect_due_complete now batch [] scheduled due id room (inr m) = elim m.0 [ ]
collect_due_complete now batch (k ∷ order) scheduled due id room h =
    rw
      (open_batch batch (length due')
        (omega (arith, length-due_after (is_due (scheduled k) now) due k)))
      (collect_due_complete now batch order scheduled due' id
        (omega (arith, length-due_after (is_due (scheduled k) now) due k))
        (carry now order scheduled due k id h))
  where
    due' : List String
    due' = due_after (is_due (scheduled k) now) due k
