-- ===== src/Redis/Apart.antt =====
-- internal/storage/redis/keys.go: keys that differ.
use text.Mathlib.TextLemmas.{
  append_assoc, append_cancel_left, append_cancel_right, head-eq_of_cons-eq,
}
use Prim.Native.Char.{Char, code}
use Prim.Native.String.{◌∷◌}
use Prim.Native.String.append
use gfire.Prelude.{◌≡◌, ◌≢◌, sym, ap, ◌∙◌, String, false, ◌==◌, eq_iff, arith, inl, inr, Bool-cases}
use gfire.Prelude.Text.{◌<>◌}
use gfire.Prelude.Dict.{ne_false, distinct}
use gfire.Redis.Keys.{job_key, job_states_key, queue_key, processing_key, continuations_key}

-- A common prefix does not matter.
pub eq-append : (p s t : String) → (p <> s == p <> t) ≡ (s == t)
eq-append p s t = elim (Bool-cases (s == t)) [
  | inl e ↦ (eq_iff (p <> s) (p <> t)).1 (ap (λ u. p <> u) ((eq_iff s t).0 e)) ∙ sym e
  | inr e ↦
      ne_false (p <> s) (p <> t) (λ same. distinct s t e (append_cancel_left p s t same)) ∙ sym e
]

pub job_key-eq : (i j : String) → (job_key i == job_key j) ≡ (i == j)
job_key-eq i j = eq-append "gfire:job:" i j

-- Keys that differ behind the common prefix do so whatever follows.
prefix_differs :
    (x y : Char) (s t : String)
    → code x ≢ code y
    → ("gfire:" <> (x ∷ s) == "gfire:" <> (y ∷ t)) ≡ false
prefix_differs x y s t h =
    eq-append "gfire:" (x ∷ s) (y ∷ t)
    ∙ ne_false (x ∷ s) (y ∷ t) (λ e. h (ap code (head-eq_of_cons-eq e)))

split_key : (x : Char) (s t : String) → ("gfire:" <> (x ∷ s)) <> t ≡ "gfire:" <> (x ∷ (s <> t))
split_key x s t = append_assoc "gfire:" (x ∷ s) t ∙ ap (λ u. "gfire:" <> u) (append.cons x s t)

-- The histories of the jobs and the queues, both lists, are kept under different keys.
pub job_states_key-queue_key : (i q : String) → (job_states_key i == queue_key q) ≡ false
job_states_key-queue_key i q =
    ap (λ s. s == queue_key q) (split_key "j" "ob:" (i <> ":states"))
    ∙ (ap (λ s. "gfire:" <> ("j" ∷ ("ob:" <> (i <> ":states"))) == s) (split_key "q" "ueue:" q)
        ∙ prefix_differs "j" "q" ("ob:" <> (i <> ":states")) ("ueue:" <> q) (λ e. omega (arith, e)))

-- So are the hash of a job and the hash of the running jobs.
pub processing_key-job_key : (i : String) → (processing_key == job_key i) ≡ false
processing_key-job_key i =
    ap (λ s. processing_key == s) (split_key "j" "ob:" i)
    ∙ prefix_differs "p" "j" "rocessing" ("ob:" <> i) (λ e. omega (arith, e))

pub queue_key-job_states_key : (q i : String) → (queue_key q == job_states_key i) ≡ false
queue_key-job_states_key q i =
    ne_false (queue_key q) (job_states_key i)
      (λ e. distinct (job_states_key i) (queue_key q) (job_states_key-queue_key i q) (sym e))

pub job_states_key-eq :
    (i j : String) → (i == j) ≡ false → (job_states_key i == job_states_key j) ≡ false
job_states_key-eq i j e =
    eq-append "gfire:job:" (i <> ":states") (j <> ":states")
    ∙ ne_false (i <> ":states") (j <> ":states")
        (λ same. distinct i j e (append_cancel_right i j ":states" same))

pub continuations_key-job_key : (p i : String) → (continuations_key p == job_key i) ≡ false
continuations_key-job_key p i =
    ap (λ s. s == job_key i) (split_key "c" "ontinuations:" p)
    ∙ (ap (λ s. "gfire:" <> ("c" ∷ ("ontinuations:" <> p)) == s) (split_key "j" "ob:" i)
        ∙ prefix_differs "c" "j" ("ontinuations:" <> p) ("ob:" <> i) (λ e. omega (arith, e)))
