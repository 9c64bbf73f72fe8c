-- ===== src/Redis/Tests/Server.antt =====
-- A server that keeps the log of what it was sent. Its reads go through the names that the log mentions.
use mathlib.Core.Bool.{false≢true}
use gfire.Prelude.{
  ℕ, zero, suc, ◌≡◌, ◌<◌, refl, ap, ◌∙◌, String, Bool, true, false, Option, none, some, List, [],
  ◌∷◌, ◌++◌, In, All, length, take, inl, inr, arith, last?, last?-append, length-take,
}
use gfire.Prelude.Int.{ℤ, leb_ℤ, ◌≤ℤ◌}
use gfire.Prelude.Dict.{is_some}
use gfire.Memory.Query.{visit}
use gfire.Engine.Coordinator.Sweep.{In-visit, visit-In}
use gfire.Redis.{Redis, Command, View, effect, put}
use gfire.Redis.Tests.Log.{
  Step, command, rpop, init, init-snoc, read, names, keep, keep-In, In-keep, keep_none, nonempty,
  hash_step, set_step, sorted_step, found_named,
}

pub nonempty_of : (x : String) (xs : List String) → In x xs → nonempty xs ≡ true
nonempty_of x [] i = elim i [ ]
nonempty_of x (y ∷ xs) i = refl

pub In-take : (n : ℕ) (x : String) (xs : List String) → In x (take n xs) → In x xs
In-take zero x xs i = elim i [ ]
In-take (suc n) x [] i = elim i [ ]
In-take (suc n) x (y ∷ xs) (inl e) = inl e
In-take (suc n) x (y ∷ xs) (inr i) = inr (In-take n x xs i)

pub take_all : (n : ℕ) (xs : List String) → length (take n xs) < n → take n xs ≡ xs
take_all zero xs h = absurd (omega arith)
take_all (suc n) [] h = refl
take_all (suc n) (x ∷ xs) h = ap (λ l. x ∷ l) (take_all n xs (omega arith))

abbrev pub due : ℤ → Option ℤ → Bool
due now none = false
due now (some score) = leb_ℤ score now

pub due_inv :
    (now : ℤ) (o : Option ℤ) → due now o ≡ true → (score : ℤ) × (o ≡ some score) × (score ≤ℤ now)
due_inv now none h = absurd (false≢true h)
due_inv now (some score) h = (score, refl, ground (arith, h))

pub due_of : (now score : ℤ) → score ≤ℤ now → leb_ℤ score now ≡ true
due_of now score h = ground (arith, h)

pub due_known : (now : ℤ) (o : Option ℤ) → due now o ≡ true → is_some o ≡ true
due_known now none h = h
due_known now (some score) h = refl

unfoldable pub pop_first : List String → List Step → Option String × List Step
pop_first [] log = (none, log)
pop_first (k ∷ ks) log = elim (last? ((read log).lists k)) [
  | none ↦ pop_first ks log
  | some x ↦ (some x, rpop k ∷ log)
]

pub pop_first_empty :
    (ks : List String) (log : List Step)
    → All (λ k. (read log).lists k ≡ []) ks
    → pop_first ks log ≡ (none, log)
unfolding pop_first
pop_first_empty [] log h = refl
pop_first_empty (k ∷ ks) log h = rw (pop_first, h.0) (pop_first_empty ks log h.1)

pub pop_first_last :
    (before : List String) (k : String) (after : List String) (xs : List String) (x : String)
    (log : List Step)
    → All (λ j. (read log).lists j ≡ []) before
    → (read log).lists k ≡ xs ++ x ∷ []
    → pop_first (before ++ k ∷ after) log ≡ (some x, rpop k ∷ log)
unfolding pop_first
pop_first_last [] k after xs x log h e = rw (pop_first, e, last?-append xs x) refl
pop_first_last (j ∷ before) k after xs x log h e =
    rw (pop_first, h.0) (pop_first_last before k after xs x log h.1 e)

pub rpop_view :
    (k : String) (xs : List String) (x : String) (log : List Step)
    → (read log).lists k ≡ xs ++ x ∷ []
    → read (rpop k ∷ log) ≡ record (read log) { lists = put k xs (read log).lists }
rpop_view k xs x log e =
    ap (λ (l : List String). record (read log) { lists = put k l (read log).lists })
      (ap init e ∙ init-snoc xs x)

abbrev pub in_hash : String → String → View → Bool
in_hash k f v = is_some (v.hashes k f)

abbrev pub in_sorted : String → String → View → Bool
in_sorted k x v = is_some (v.sorted k x)

pub hash_found : (k f : String) (log : List Step) → in_hash k f (read log) ≡ true → In f (names log)
hash_found k f = found_named (in_hash k f) f refl (λ v s. hash_step v k f s)

pub set_found : (k x : String) (log : List Step) → (read log).sets k x ≡ true → In x (names log)
set_found k x = found_named (λ v. v.sets k x) x refl (λ v s. set_step v k x s)

pub sorted_found :
    (k x : String) (log : List Step) → in_sorted k x (read log) ≡ true → In x (names log)
sorted_found k x = found_named (in_sorted k x) x refl (λ v s. sorted_step v k x s)

abbrev pub due_names : String → ℤ → List Step → List String
due_names k now log = keep (λ x. due now ((read log).sorted k x)) (names log)

unfoldable pub log_exists : String → List Step → Bool
log_exists k log = nonempty (keep (λ f. in_hash k f (read log)) (names log))

unfoldable pub log_set_nx : String → String → List Step → Bool × List Step
log_set_nx k x log = elim ((read log).texts k) [
  | none ↦ (true, command (Command.set k x) ∷ log)
  | some y ↦ (false, log)
]

pub exists_when_named :
    (k f v : String) (log : List Step) → (read log).hashes k f ≡ some v → log_exists k log ≡ true
unfolding log_exists
exists_when_named k f v log e =
    let here : in_hash k f (read log) ≡ true = ap is_some e in
    nonempty_of f _
      (In-keep (λ g. in_hash k g (read log)) (names log) f (hash_found k f log here) here)

pub absent_when_unnamed :
    (k : String) (log : List Step)
    → ((f : String) → (read log).hashes k f ≡ none)
    → log_exists k log ≡ false
unfolding log_exists
absent_when_unnamed k log h =
    ap nonempty (keep_none (λ f. in_hash k f (read log)) (names log) (λ f. ap is_some (h f)))

pub log_set_nx_free :
    (k x : String) (ttl : ℤ) (log : List Step)
    → (read log).texts k ≡ none
    → ((log_set_nx k x log).0 ≡ true)
      × (read (log_set_nx k x log).1 ≡ effect (Command.set k x) (read log))
unfolding log_set_nx
log_set_nx_free k x ttl log e = rw (log_set_nx, e) (refl, refl)

pub log_set_nx_taken :
    (k x y : String) (ttl : ℤ) (log : List Step)
    → (read log).texts k ≡ some y
    → log_set_nx k x log ≡ (false, log)
unfolding log_set_nx
log_set_nx_taken k x y ttl log e = rw (log_set_nx, e) refl

pub log_range_all :
    (k x : String) (now score : ℤ) (n : ℕ) (log : List Step)
    → length (take n (due_names k now log)) < n
    → (read log).sorted k x ≡ some score
    → score ≤ℤ now
    → In x (take n (due_names k now log))
log_range_all k x now score n log room e ready =
    let here : due now ((read log).sorted k x) ≡ true = ap (due now) e ∙ due_of now score ready in
    rw (take_all n (due_names k now log) room) (
      In-keep (λ y. due now ((read log).sorted k y)) (names log) x
        (sorted_found k x log (due_known now ((read log).sorted k x) here)) here)

-- The server.
unfoldable pub log_server : Redis
unfolding keep pop_first log_exists log_set_nx
log_server = record {
  Db = List Step;
  view = read;
  apply = λ c log. command c ∷ log;
  exists = log_exists;
  smembers = λ k log. keep (λ x. (read log).sets k x) (names log);
  hvals = λ k log. visit (names log) ((read log).hashes k);
  range_by_score = λ k now n log. take n (due_names k now log);
  brpop = pop_first;
  set_nx = λ k x ttl log. log_set_nx k x log;
  apply_law = λ c log. refl;
  exists_some = exists_when_named;
  exists_none = absent_when_unnamed;
  smembers_law = λ k x log. (
    keep-In (λ y. (read log).sets k y) (names log) x,
    λ e. In-keep (λ y. (read log).sets k y) (names log) x (set_found k x log e) e,
  );
  hvals_law = λ k x log. (
    visit-In (names log) ((read log).hashes k) x,
    λ p.
        In-visit (names log) ((read log).hashes k) p.0 x (hash_found k p.0 log (ap is_some p.1))
          p.1,
  );
  range_due = λ k x now n log i. due_inv now ((read log).sorted k x) (
      keep-In (λ y. due now ((read log).sorted k y)) (names log) x
        (In-take n x (due_names k now log) i));
  range_size = λ k now n log. omega (arith, length-take n (due_names k now log));
  range_all = log_range_all;
  brpop_empty = pop_first_empty;
  brpop_last = λ before k after xs x log h e.
      let same = pop_first_last before k after xs x log h e in
      (
        ap (λ (p : Option String × List Step). p.0) same,
        ap (λ (p : Option String × List Step). read p.1) same ∙ rpop_view k xs x log e,
      );
  set_nx_free = log_set_nx_free;
  set_nx_taken = log_set_nx_taken;
}
