-- ===== src/Middleware.antt =====
-- internal/middleware: the pipeline around a handler, and the count of failed attempts.
use gfire.Prelude.{ℕ, suc, ◌+◌, ◌≡◌, refl, String, List, [], ◌∷◌, ◌++◌, ◌==◌, if◌then◌else◌, arith}
use gfire.Prelude.Text.{◌<>◌}
use gfire.Job.{JobState, state_failed}

-- The two values of a handler: its output, or its output and its error. A panic unwinds.
pub data Outcome : Type 0 where
  returned : List ℕ → Outcome
  failed : List ℕ → String → Outcome
  panicked : String → Outcome

-- HandlerFunc and MiddlewareFunc, over a job context `C`.
abbrev pub HandlerFunc : Type 0 → Type 0
HandlerFunc C = C → Outcome

abbrev pub MiddlewareFunc : Type 0 → Type 0
MiddlewareFunc C = C → HandlerFunc C → HandlerFunc C

abbrev pub recover : Outcome → Outcome
recover (returned out) = returned out
recover (failed out e) = failed out e
recover (panicked v) = failed [] ("panic: " <> v)

abbrev pub IsPanic : Outcome → Type 0
IsPanic (returned out) = ⊥
IsPanic (failed out e) = ⊥
IsPanic (panicked v) = Unit

module _ {C : Type 0} where
  -- Pipeline.Execute: the loop wraps from the last middleware to the first.
  unfoldable pub execute : List (MiddlewareFunc C) → HandlerFunc C → HandlerFunc C
  execute [] h c = h c
  execute (mw ∷ mws) h c = mw c (execute mws h) c

  -- PanicRecovery: the named results are nil when a panic is recovered.
  unfoldable pub panic_recovery : MiddlewareFunc C
  panic_recovery ctx next c = recover (next c)

  -- With PanicRecovery outermost, no panic leaves the pipeline, whatever the other middleware and
  -- the handler do.
  pub execute-IsPanic :
      (mws : List (MiddlewareFunc C)) (h : HandlerFunc C) (c : C)
      → ¬ IsPanic (execute (panic_recovery ∷ mws) h c)
  unfolding execute panic_recovery
  execute-IsPanic mws h c = cases (execute mws h c)
    where
      cases : (o : Outcome) → ¬ IsPanic (recover o)
      cases (returned out) p = p
      cases (failed out e) p = p
      cases (panicked v) p = p

  -- What the rest of the pipeline returns without a panic comes out of PanicRecovery as it is.
  pub execute_transparent :
      (mws : List (MiddlewareFunc C)) (h : HandlerFunc C) (c : C)
      → ¬ IsPanic (execute mws h c)
      → execute (panic_recovery ∷ mws) h c ≡ execute mws h c
  unfolding execute panic_recovery
  execute_transparent mws h c = cases (execute mws h c)
    where
      cases : (o : Outcome) → ¬ IsPanic o → recover o ≡ o
      cases (returned out) n = refl
      cases (failed out e) n = refl
      cases (panicked v) n = absurd (n tt)

-- AttemptCount
unfoldable pub attempt_count : List JobState → ℕ
attempt_count [] = 0
attempt_count (st ∷ states) =
    let rest = attempt_count states in if st.name == state_failed then suc rest else rest

pub attempt_count-append :
    (xs ys : List JobState) → attempt_count (xs ++ ys) ≡ attempt_count xs + attempt_count ys
unfolding attempt_count
attempt_count-append [] ys = omega arith
attempt_count-append (x ∷ xs) ys = ground (arith, attempt_count-append xs ys)
