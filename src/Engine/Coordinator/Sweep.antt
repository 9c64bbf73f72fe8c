-- ===== src/Engine/Coordinator/Sweep.antt =====
-- Which servers staleServerSweep of internal/engine/coordinator.go unregisters.
use gfire.Prelude.{
  ℕ, Bool, ◌*◌, ◌-◌, ◌^◌, ◌≤◌, ltb, ◌≡◌, refl, sym, ap, ◌∙◌, String, some, List, [], ◌∷◌, In, inl,
  inr, ◌⊎◌, Option-cases,
}
use gfire.Prelude.Int.{ℤ, pos, negsuc}
use gfire.Prelude.Dict.{Dict}
use gfire.Job.{ServerInfo}
use gfire.Memory.{Store}
use gfire.Memory.Query.{visit}
use gfire.Engine.Config.{Config}

-- Servers are stored under their ids.
abbrev pub IsKeyed : Store → Type 0
IsKeyed s = (k : String) (sv : ServerInfo) → s.servers k ≡ some sv → sv.id ≡ k

pub In-visit :
    {V : Type 0} (order : List String) (m : Dict V) (k : String) (v : V)
    → In k order
    → m k ≡ some v
    → In v (visit order m)
unfolding visit
In-visit [] m k v i e = elim i [ ]
In-visit (j ∷ order) m k v (inl same) e = rw (← same, e, visit) (inl refl)
In-visit (j ∷ order) m k v (inr i) e = elim (Option-cases (m j)) [
  | inl n ↦ rw (n, visit) (In-visit order m k v i e)
  | inr (u, n) ↦ rw (n, visit) (inr (In-visit order m k v i e))
]

found :
    {V : Type 0} {I : Type 0} (m : Dict V) (j : String) (u v : V)
    → m j ≡ some u
    → (I → (k : String) × (m k ≡ some v))
    → (v ≡ u) ⊎ I
    → (k : String) × (m k ≡ some v)
found m j u v n rest (inl e) = (j, n ∙ ap some (sym e))
found m j u v n rest (inr r) = rest r

pub visit-In :
    {V : Type 0} (order : List String) (m : Dict V) (v : V)
    → In v (visit order m)
    → (k : String) × (m k ≡ some v)
unfolding visit
visit-In [] m v i = elim i [ ]
visit-In (j ∷ order) m v i = elim (Option-cases (m j)) [
  | inl n ↦ visit-In order m v (rw (n, visit) at i)
  | inr (u, n) ↦ found m j u v n (visit-In order m v) (rw (n, visit) at i)
]

-- The test of the sweep in plain numbers, for a time to live whose product with three an int64
-- holds: more than three times the time to live has passed since the last heartbeat.
abbrev pub IsAgeTest : ℤ → ℕ → ServerInfo → Bool → Type 0
IsAgeTest (pos n) now sv b = (2 ^ 63 - 1 ≤ 3 * n) ⊎ (b ≡ ltb (3 * n) (now - sv.last_heartbeat))
IsAgeTest (negsuc n) now sv b = Unit {0}
