-- ===== src/Redis/Tests/Log.antt =====
-- The log of what a server was sent, the last step first, and what it reads as: what the documentation
-- says of the commands.
use mathlib.Core.Bool.{false≢true}
use gfire.Prelude.{
  ◌≡◌, ◌⊎◌, refl, sym, ap, subst, ◌∙◌, String, Bool, true, false, none, List, [], ◌∷◌, ◌++◌, ◌==◌,
  if◌then◌else◌, In, inl, inr, Bool-cases, eq_iff,
}
use gfire.Prelude.Int.{pos}
use gfire.Prelude.Dict.{Dict, is_some, insert}
use gfire.Redis.{Command, View, effect, put, set_fields}

pub data Step : Type 0 where
  command : Command → Step
  rpop : String → Step

abbrev pub init : List String → List String
init [] = []
init (x ∷ []) = []
init (x ∷ y ∷ xs) = x ∷ init (y ∷ xs)

pub init-snoc : (xs : List String) (x : String) → init (xs ++ x ∷ []) ≡ xs
init-snoc [] x = refl
init-snoc (y ∷ []) x = refl
init-snoc (y ∷ z ∷ xs) x = ap (λ l. y ∷ l) (init-snoc (z ∷ xs) x)

abbrev pub empty_view : View
empty_view = record {
  hashes = λ k f. none;
  lists = λ k. [];
  sets = λ k x. false;
  sorted = λ k x. none;
  texts = λ k. none;
  numbers = λ k. pos 0;
}

abbrev pub step_effect : Step → View → View
step_effect (command c) v = effect c v
step_effect (rpop k) v = record v { lists = put k (init (v.lists k)) v.lists }

abbrev pub read : List Step → View
read [] = empty_view
read (s ∷ log) = step_effect s (read log)

-- The names that a log mentions.
abbrev pub fields_of : List (String × String) → List String
fields_of [] = []
fields_of ((f, v) ∷ fields) = f ∷ fields_of fields

abbrev pub named : Step → List String
named (command (Command.hset k fields)) = fields_of fields
named (command (Command.sadd k x)) = x ∷ []
named (command (Command.zadd k score x)) = x ∷ []
named (command _) = []
named (rpop k) = []

abbrev pub names : List Step → List String
names [] = []
names (s ∷ log) = named s ++ names log

pub In-left : (x : String) (xs ys : List String) → In x xs → In x (xs ++ ys)
In-left x [] ys i = elim i [ ]
In-left x (y ∷ xs) ys (inl e) = inl e
In-left x (y ∷ xs) ys (inr i) = inr (In-left x xs ys i)

pub In-right : (x : String) (xs ys : List String) → In x ys → In x (xs ++ ys)
In-right x [] ys i = i
In-right x (y ∷ xs) ys i = inr (In-right x xs ys i)

-- The names that pass a test.
unfoldable pub keep : (String → Bool) → List String → List String
keep p [] = []
keep p (x ∷ xs) = let rest = keep p xs in if p x then x ∷ rest else rest

pub keep-In : (p : String → Bool) (xs : List String) (x : String) → In x (keep p xs) → p x ≡ true
unfolding keep
keep-In p [] x i = elim i [ ]
keep-In p (y ∷ xs) x i = elim (Bool-cases (p y)) [
  | inl e ↦ kept y x e (keep-In p xs x) (rw e at i)
  | inr e ↦ keep-In p xs x (rw e at i)
]
  where
    kept :
        (y x : String)
        → p y ≡ true
        → (In x (keep p xs) → p x ≡ true)
        → (x ≡ y) ⊎ In x (keep p xs)
        → p x ≡ true
    kept y x e rest (inl same) = ap p same ∙ e
    kept y x e rest (inr i) = rest i

pub In-keep :
    (p : String → Bool) (xs : List String) (x : String) → In x xs → p x ≡ true → In x (keep p xs)
unfolding keep
In-keep p [] x i h = elim i [ ]
In-keep p (y ∷ xs) x (inl e) h = rw (← e, h) (inl refl)
In-keep p (y ∷ xs) x (inr i) h = elim (Bool-cases (p y)) [
  | inl e ↦ rw e (inr (In-keep p xs x i h))
  | inr e ↦ rw e (In-keep p xs x i h)
]

pub keep_none :
    (p : String → Bool) (xs : List String) → ((x : String) → p x ≡ false) → keep p xs ≡ []
unfolding keep
keep_none p [] h = refl
keep_none p (x ∷ xs) h = rw (h x) (keep_none p xs h)

abbrev pub nonempty : List String → Bool
nonempty [] = false
nonempty (x ∷ xs) = true

pub set_fields_named :
    (fields : List (String × String)) (h : Dict String) (f : String)
    → is_some (set_fields fields h f) ≡ true
    → In f (fields_of fields) ⊎ (is_some (h f) ≡ true)
set_fields_named [] h f e = inr e
set_fields_named ((g, v) ∷ fields) h f e = elim (set_fields_named fields (insert g v h) f e) [
  | inl i ↦ inl (inr i)
  | inr i ↦ elim (Bool-cases (g == f)) [
    | inl same ↦ inl (inl (sym ((eq_iff g f).0 same)))
    | inr other ↦ inr (rw other at i)
  ]
]

module _ (v : View) (k f : String) where
  -- What is found under a name after a step was named by the step, or was found before it.
  pub hash_step :
      (s : Step)
      → is_some ((step_effect s v).hashes k f) ≡ true
      → In f (named s) ⊎ (is_some (v.hashes k f) ≡ true)
  hash_step (command (Command.hset j fields)) e = elim (Bool-cases (j == k)) [
    | inl same ↦ elim (set_fields_named fields (v.hashes j) f (rw same at e)) [
      | inl i ↦ inl i
      | inr h ↦ inr (subst (λ l. is_some (v.hashes l f) ≡ true) ((eq_iff j k).0 same) h)
    ]
    | inr other ↦ inr (rw other at e)
  ]
  hash_step (command (Command.hdel j g)) e = elim (Bool-cases (j == k)) [
    | inl same ↦ elim (Bool-cases (g == f)) [
      | inl gone ↦ absurd (false≢true (rw (same, gone) at e))
      | inr kept ↦
          inr (
            subst (λ l. is_some (v.hashes l f) ≡ true) ((eq_iff j k).0 same) (rw (same, kept) at e))
    ]
    | inr other ↦ inr (rw other at e)
  ]
  hash_step (command (Command.del j)) e = elim (Bool-cases (j == k)) [
    | inl same ↦ absurd (false≢true (rw same at e))
    | inr other ↦ inr (rw other at e)
  ]
  hash_step (command (Command.rpush j x)) e = inr e
  hash_step (command (Command.lpush j x)) e = inr e
  hash_step (command (Command.lrem j x)) e = inr e
  hash_step (command (Command.sadd j x)) e = inr e
  hash_step (command (Command.srem j x)) e = inr e
  hash_step (command (Command.zadd j n x)) e = inr e
  hash_step (command (Command.zrem j x)) e = inr e
  hash_step (command (Command.incrby j n)) e = inr e
  hash_step (command (Command.set j x)) e = inr e
  hash_step (rpop j) e = inr e

  pub set_step :
      (s : Step) → (step_effect s v).sets k f ≡ true → In f (named s) ⊎ (v.sets k f ≡ true)
  set_step (command (Command.sadd j x)) e = elim (Bool-cases (j == k)) [
    | inl same ↦ elim (Bool-cases (x == f)) [
      | inl new ↦ inl (inl (sym ((eq_iff x f).0 new)))
      | inr old ↦ inr (subst (λ l. v.sets l f ≡ true) ((eq_iff j k).0 same) (rw (same, old) at e))
    ]
    | inr other ↦ inr (rw other at e)
  ]
  set_step (command (Command.srem j x)) e = elim (Bool-cases (j == k)) [
    | inl same ↦ elim (Bool-cases (x == f)) [
      | inl gone ↦ absurd (false≢true (rw (same, gone) at e))
      | inr kept ↦ inr (subst (λ l. v.sets l f ≡ true) ((eq_iff j k).0 same) (rw (same, kept) at e))
    ]
    | inr other ↦ inr (rw other at e)
  ]
  set_step (command (Command.del j)) e = elim (Bool-cases (j == k)) [
    | inl same ↦ absurd (false≢true (rw same at e))
    | inr other ↦ inr (rw other at e)
  ]
  set_step (command (Command.hset j x)) e = inr e
  set_step (command (Command.hdel j x)) e = inr e
  set_step (command (Command.rpush j x)) e = inr e
  set_step (command (Command.lpush j x)) e = inr e
  set_step (command (Command.lrem j x)) e = inr e
  set_step (command (Command.zadd j n x)) e = inr e
  set_step (command (Command.zrem j x)) e = inr e
  set_step (command (Command.incrby j n)) e = inr e
  set_step (command (Command.set j x)) e = inr e
  set_step (rpop j) e = inr e

  pub sorted_step :
      (s : Step)
      → is_some ((step_effect s v).sorted k f) ≡ true
      → In f (named s) ⊎ (is_some (v.sorted k f) ≡ true)
  sorted_step (command (Command.zadd j n x)) e = elim (Bool-cases (j == k)) [
    | inl same ↦ elim (Bool-cases (x == f)) [
      | inl new ↦ inl (inl (sym ((eq_iff x f).0 new)))
      | inr old ↦
          inr
            (subst (λ l. is_some (v.sorted l f) ≡ true) ((eq_iff j k).0 same) (rw (same, old) at e))
    ]
    | inr other ↦ inr (rw other at e)
  ]
  sorted_step (command (Command.zrem j x)) e = elim (Bool-cases (j == k)) [
    | inl same ↦ elim (Bool-cases (x == f)) [
      | inl gone ↦ absurd (false≢true (rw (same, gone) at e))
      | inr kept ↦
          inr (
            subst (λ l. is_some (v.sorted l f) ≡ true) ((eq_iff j k).0 same) (rw (same, kept) at e))
    ]
    | inr other ↦ inr (rw other at e)
  ]
  sorted_step (command (Command.del j)) e = elim (Bool-cases (j == k)) [
    | inl same ↦ absurd (false≢true (rw same at e))
    | inr other ↦ inr (rw other at e)
  ]
  sorted_step (command (Command.hset j x)) e = inr e
  sorted_step (command (Command.hdel j x)) e = inr e
  sorted_step (command (Command.rpush j x)) e = inr e
  sorted_step (command (Command.lpush j x)) e = inr e
  sorted_step (command (Command.lrem j x)) e = inr e
  sorted_step (command (Command.sadd j x)) e = inr e
  sorted_step (command (Command.srem j x)) e = inr e
  sorted_step (command (Command.incrby j n)) e = inr e
  sorted_step (command (Command.set j x)) e = inr e
  sorted_step (rpop j) e = inr e

-- A test that holds only of names that a log mentions, if it does so step by step.
pub found_named :
    (test : View → Bool) (f : String)
    → test empty_view ≡ false
    → ((v : View) (s : Step) → test (step_effect s v) ≡ true → In f (named s) ⊎ (test v ≡ true))
    → (log : List Step) → test (read log) ≡ true
    → In f (names log)
found_named test f none_first step [] e = absurd (false≢true (sym none_first ∙ e))
found_named test f none_first step (s ∷ log) e = elim (step (read log) s e) [
  | inl i ↦ In-left f (named s) (names log) i
  | inr h ↦ In-right f (named s) (names log) (found_named test f none_first step log h)
]
