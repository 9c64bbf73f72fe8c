-- ===== src/Redis/Laws.antt =====
-- Pipelines on what a server reads as.
use gfire.Prelude.{ℕ, ◌≡◌, ◌⊎◌, refl, ap, ◌∙◌, List, [], ◌∷◌, inl, inr, take}
use gfire.Prelude.Result.{Result, err, err_backend}
use gfire.Redis.{Redis, Command, View, World, Trip, answered, lost, send, effect, apply_all}

-- What a pipeline does to what the reads return.
abbrev pub effects : List Command → View → View
effects [] v = v
effects (c ∷ cs) v = effects cs (effect c v)

pub view-apply_all :
    (r : Redis) (cs : List Command) (d : r.Db) → r.view (apply_all r cs d) ≡ effects cs (r.view d)
view-apply_all r [] d = refl
view-apply_all r (c ∷ cs) d = view-apply_all r cs (r.apply c d) ∙ ap (effects cs) (r.apply_law c d)

pub Trip-cases : (t : Trip) → (t ≡ answered) ⊎ ((n : ℕ) × (t ≡ lost n))
Trip-cases answered = inl refl
Trip-cases (lost n) = inr (n, refl)

-- How a pipeline ends.
module _ (r : Redis) {A : Type 0} (w : World r.Db) (i : ℕ) (cs : List Command) (d : r.Db) where
  pub send_answered :
      (next : r.Db → Result A × r.Db)
      → w.trip i ≡ answered
      → send r w i cs d next ≡ next (apply_all r cs (w.meanwhile i d))
  send_answered next e = rw (send, e) refl

  pub send_lost :
      (next : r.Db → Result A × r.Db) (n : ℕ)
      → w.trip i ≡ lost n
      → send r w i cs d next ≡ (err err_backend, apply_all r (take n cs) (w.meanwhile i d))
  send_lost next n e = rw (send, e) refl
