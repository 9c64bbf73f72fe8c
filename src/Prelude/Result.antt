-- ===== src/Prelude/Result.antt =====
-- The two values of a fallible Go call, and the run-time panic that ends it.

use mathlib.Core.Path.{◌≡◌}

-- The sentinel errors of internal/storage/errors, those of the context package, an error of the Redis
-- client, and a text that does not decode.
pub data Error : Type 0 where
  err_not_found err_state_conflict err_queue_empty : Error
  err_already_exists err_lock_not_held err_terminal_state : Error
  canceled deadline_exceeded : Error
  err_backend err_malformed : Error

-- `fault` is a panic or a fatal error of the Go run time: an index out of range, a nil
-- dereference, an unlock of a mutex that is not locked.
pub data Result {ℓ} (A : Type ℓ) : Type ℓ where
  ok : A → Result A
  err : Error → Result A
  fault : Result A

infixl 5 ◌>>=◌
abbrev pub ◌>>=◌ {ℓ κ} : {A : Type ℓ} {B : Type κ} → Result A → (A → Result B) → Result B
ok a >>= f = f a
err e >>= f = err e
fault >>= f = fault

pub ok_path {ℓ} : {A : Type ℓ} (a b : A) → ok a ≡ ok b → a ≡ b
ok_path a b p = cc
