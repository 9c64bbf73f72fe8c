-- ===== src/Memory/Expiry.antt =====
-- RemoveExpired of memory.go, and Dequeue after it.
use gfire.Prelude.{
  ℕ, suc, ◌≡◌, ◌≢◌, refl, sym, subst, ◌∙◌, String, Bool, true, false, none, some, List, [], ◌∷◌,
  ◌==◌, eq_iff, Bool-cases, inl, inr, ◌⊎◌, if◌then◌else◌, In, last?,
}
use mathlib.Core.Bool.{false≢true}
use gfire.Prelude.Dict.{ne_false}
use gfire.Prelude.Result.{fault}
use gfire.Job.{JobState, Runtime, state_dead, state_cancelled, terminal_states}
use gfire.Memory.{Store, read_list}
use gfire.Memory.Queues.{dequeue_pass}
use gfire.Memory.Dispatch.{dequeue_pass_crashes}
use gfire.Memory.Maintenance.{remove_expired, remove_visited, is_expired, is_terminal, forget}

-- The last state of the job is terminal and older than the cutoff.
abbrev pub expires : ℕ → Store → String → Bool
expires cutoff s id = is_expired cutoff (last? (read_list id s.job_states))

abbrev swept : ℕ → String → Store → Store
swept cutoff k s = if expires cutoff s k then forget k s else s

-- What is known of two ids, in two stores.
abbrev SameJob : String → Store → Store → Type 0
SameJob id s t = (t.jobs id ≡ s.jobs id) × (t.job_states id ≡ s.job_states id)

swept_other :
    (cutoff : ℕ) (k id : String) (s : Store)
    → (k ≢ id) ⊎ (expires cutoff s k ≡ false)
    → SameJob id s (swept cutoff k s)
swept_other cutoff k id s (inl ne) = elim (Bool-cases (expires cutoff s k)) [
  | inl e ↦ rw (e, ne_false k id ne) (refl, refl)
  | inr e ↦ rw e (refl, refl)
]
swept_other cutoff k id s (inr e) = rw e (refl, refl)

differs :
    (cutoff : ℕ) (k id : String) (s : Store)
    → expires cutoff s id ≡ false
    → (k ≢ id) ⊎ (expires cutoff s k ≡ false)
differs cutoff k id s h = elim (Bool-cases (expires cutoff s k)) [
  | inl e ↦
      inl (λ same. absurd (false≢true (sym h ∙ subst (λ i. expires cutoff s i ≡ true) same e)))
  | inr e ↦ inr e
]

same_expires :
    (cutoff : ℕ) (id : String) (s t : Store)
    → SameJob id s t
    → expires cutoff t id ≡ expires cutoff s id
same_expires cutoff id s t h = rw (h.1) refl

remove_visited_keeps :
    (cutoff : ℕ) (order : List String) (n : ℕ) (id : String) (s : Store)
    → expires cutoff s id ≡ false
    → SameJob id s (remove_visited cutoff order n s).1
unfolding remove_visited
remove_visited_keeps cutoff [] n id s h = (refl, refl)
remove_visited_keeps cutoff (k ∷ order) n id s h =
    let same : SameJob id s (swept cutoff k s) =
      swept_other cutoff k id s (differs cutoff k id s h) in
    let rest =
      remove_visited_keeps cutoff order (if expires cutoff s k then suc n else n) id
        (swept cutoff k s) (same_expires cutoff id s (swept cutoff k s) same ∙ h) in
    (rest.0 ∙ same.0, rest.1 ∙ same.1)

remove_visited_removes :
    (cutoff : ℕ) (order : List String) (n : ℕ) (id : String) (s : Store)
    → In id order
    → expires cutoff s id ≡ true
    → let t = (remove_visited cutoff order n s).1 in (t.jobs id ≡ none) × (t.job_states id ≡ none)
unfolding remove_visited
remove_visited_removes cutoff [] n id s m h = elim m [ ]
remove_visited_removes cutoff (k ∷ order) n id s m h = elim (Bool-cases (k == id)) [
  | inl e ↦
      let same : k ≡ id = (eq_iff k id).0 e in
      let now : expires cutoff s k ≡ true = subst (λ i. expires cutoff s i ≡ true) (sym same) h in
      let kept = remove_visited_keeps cutoff order (suc n) id (forget k s) (rw e refl) in
      rw (now, remove_visited) (kept.0 ∙ rw e refl, kept.1 ∙ rw e refl)
  | inr e ↦
      let ne : k ≢ id = (λ same. false≢true (sym e ∙ (eq_iff k id).1 same)) in
      remove_visited_removes cutoff order (if expires cutoff s k then suc n else n) id
        (swept cutoff k s) (later ne m)
        (same_expires cutoff id s (swept cutoff k s) (swept_other cutoff k id s (inl ne)) ∙ h)
]
  where
    later : k ≢ id → In id (k ∷ order) → In id order
    later ne (inl same) = absurd (ne (sym same))
    later ne (inr m) = m

-- RemoveExpired forgets a visited job and its history exactly when the last state is terminal for
-- it (Succeeded, Failed or Deleted) and older than the cutoff; it keeps both of every other
-- visited job.
pub remove_expired_lem :
    (order : List String) (cutoff : ℕ) (id : String) (s : Store)
    → In id order
    → ((remove_expired order cutoff s).1.jobs id
        ≡ (if expires cutoff s id then none else s.jobs id))
      × ((remove_expired order cutoff s).1.job_states id
          ≡ (if expires cutoff s id then none else s.job_states id))
unfolding remove_expired
remove_expired_lem order cutoff id s m = elim (Bool-cases (expires cutoff s id)) [
  | inl e ↦ rw e (remove_visited_removes cutoff order 0 id s m e)
  | inr e ↦ rw e (remove_visited_keeps cutoff order 0 id s e)
]

-- Dead and Cancelled are terminal by TerminalStates, and RemoveExpired keeps a job whose last
-- state is one of them, whatever the cutoff.
pub remove_expired_keeps_dead :
    (order : List String) (cutoff : ℕ) (id : String) (st : JobState) (s : Store)
    → last? (read_list id s.job_states) ≡ some st
    → (st.name ≡ state_dead) ⊎ (st.name ≡ state_cancelled)
    → (terminal_states st.name ≡ true) × ((remove_expired order cutoff s).1.jobs id ≡ s.jobs id)
unfolding remove_expired is_terminal terminal_states
remove_expired_keeps_dead order cutoff id st s e (inl d) =
    (rw d refl, (remove_visited_keeps cutoff order 0 id s (rw (e, d) refl)).0)
remove_expired_keeps_dead order cutoff id st s e (inr d) =
    (rw d refl, (remove_visited_keeps cutoff order 0 id s (rw (e, d) refl)).0)

remove_visited-queues :
    (cutoff : ℕ) (order : List String) (n : ℕ) (s : Store)
    → (remove_visited cutoff order n s).1.queues ≡ s.queues
unfolding remove_visited
remove_visited-queues cutoff [] n s = refl
remove_visited-queues cutoff (k ∷ order) n s =
    remove_visited-queues cutoff order (if expires cutoff s k then suc n else n) (swept cutoff k s)
    ∙ same (expires cutoff s k)
  where
    same : (b : Bool) → (if b then forget k s else s).queues ≡ s.queues
    same true = refl
    same false = refl

-- If an expired job that RemoveExpired visits is at the front of a queue, the next pass of
-- Dequeue that looks at this queue first crashes the program.
pub remove_expired_then_dequeue :
    (rt : Runtime) (order : List String) (cutoff : ℕ) (q id : String) (rest qs : List String)
    (s : Store)
    → In id order
    → expires cutoff s id ≡ true
    → read_list q s.queues ≡ id ∷ rest
    → dequeue_pass rt true (q ∷ qs) (remove_expired order cutoff s).1 ≡ fault
unfolding remove_expired
remove_expired_then_dequeue rt order cutoff q id rest qs s m h e =
    dequeue_pass_crashes rt [] qs q id rest (remove_visited cutoff order 0 s).1 tt
      (rw (remove_visited-queues cutoff order 0 s) e)
      (remove_visited_removes cutoff order 0 id s m h).0
