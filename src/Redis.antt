-- ===== src/Redis.antt =====
-- internal/storage/redis: what the store uses of a Redis server, and the round trips to it.
pub mod Keys
pub mod Codec
pub mod Jobs
pub mod Queues
pub mod States
pub mod Query
pub mod Scheduled
pub mod Recurring
pub mod Servers
pub mod Locks
pub mod Maintenance
pub mod Apart
pub mod Laws
pub mod RoundTrip
pub mod Broken
pub mod Dispatch
pub mod Represents
pub mod Transitions
pub mod Agreement
pub mod Refinement
pub mod Queueing
pub mod Hazards
pub mod Expiry
pub mod Exclusion
pub mod Tests
use gfire.Prelude.{
  ℕ, zero, suc, ◌+◌, ◌≡◌, ◌↔◌, ◌≤◌, ◌<◌, String, Bool, true, false, Option, none, some, List, [],
  ◌∷◌, ◌++◌, ◌==◌, if◌then◌else◌, In, All, length, take,
}
use gfire.Prelude.Int.{ℤ, pos, ◌+ℤ◌, ◌≤ℤ◌}
use gfire.Prelude.Dict.{Dict, insert, erase}
use gfire.Prelude.Result.{Result, ok, err, fault, err_backend}

-- What the reads HGETALL, LRANGE, SISMEMBER, ZSCORE and GET return for every key. A key that is not
-- there reads as the empty value. The key of a counter holds a number.
pub record View : Type 0 where
  pub hashes : String → Dict String
  pub lists : String → List String
  pub sets : String → String → Bool
  pub sorted : String → Dict ℤ
  pub texts : Dict String
  pub numbers : String → ℤ

-- The commands that write.
pub data Command : Type 0 where
  hset : String → List (String × String) → Command
  hdel : String → String → Command
  rpush lpush lrem : String → String → Command
  sadd srem : String → String → Command
  zadd : String → ℤ → String → Command
  zrem : String → String → Command
  incrby : String → ℤ → Command
  set : String → String → Command
  del : String → Command

-- The value of one key, replaced.
abbrev pub put {ℓ} : {A : Type ℓ} → String → A → (String → A) → String → A
put k v m j = if k == j then v else m j

abbrev pub set_fields : List (String × String) → Dict String → Dict String
set_fields [] h = h
set_fields ((f, v) ∷ fields) h = set_fields fields (insert f v h)

abbrev pub without : String → List String → List String
without x [] = []
without x (y ∷ ys) = let rest = without x ys in if x == y then rest else y ∷ rest

-- What the documentation of Redis says of the commands, for a key that holds a value of the
-- command's type or none.
abbrev pub effect : Command → View → View
effect (hset k fields) v = record v { hashes = put k (set_fields fields (v.hashes k)) v.hashes }
effect (hdel k f) v = record v { hashes = put k (erase f (v.hashes k)) v.hashes }
effect (rpush k x) v = record v { lists = put k (v.lists k ++ x ∷ []) v.lists }
effect (lpush k x) v = record v { lists = put k (x ∷ v.lists k) v.lists }
effect (lrem k x) v = record v { lists = put k (without x (v.lists k)) v.lists }
effect (sadd k x) v = record v { sets = put k (put x true (v.sets k)) v.sets }
effect (srem k x) v = record v { sets = put k (put x false (v.sets k)) v.sets }
effect (zadd k score x) v = record v { sorted = put k (insert x score (v.sorted k)) v.sorted }
effect (zrem k x) v = record v { sorted = put k (erase x (v.sorted k)) v.sorted }
effect (incrby k n) v = record v { numbers = put k (v.numbers k +ℤ n) v.numbers }
effect (set k x) v = record v { texts = insert k x v.texts }
effect (del k) v = record {
  hashes = put k (λ f. none) v.hashes;
  lists = put k [] v.lists;
  sets = put k (λ x. false) v.sets;
  sorted = put k (λ x. none) v.sorted;
  texts = erase k v.texts;
  numbers = put k (pos 0) v.numbers;
}

-- A Redis server, with the documented behaviour of what the store sends to it. `view` is what the
-- reads return; SMEMBERS and HVALS return their elements in an order of their own. BRPOP is given
-- the keys in their order; it returns nothing when its timeout has passed. An expiry of SET NX is a
-- later DEL by the server.
pub record Redis : Type 1 where
  pub Db : Type 0
  pub view : Db → View
  pub apply : Command → Db → Db
  pub exists : String → Db → Bool
  pub smembers : String → Db → List String
  pub hvals : String → Db → List String
  pub range_by_score : String → ℤ → ℕ → Db → List String
  pub brpop : List String → Db → Option String × Db
  pub set_nx : String → String → ℤ → Db → Bool × Db
  pub apply_law : (c : Command) (d : Db) → view (apply c d) ≡ effect c (view d)
  pub exists_some : (k f v : String) (d : Db) → (view d).hashes k f ≡ some v → exists k d ≡ true
  pub exists_none :
      (k : String) (d : Db) → ((f : String) → (view d).hashes k f ≡ none) → exists k d ≡ false
  pub smembers_law : (k x : String) (d : Db) → In x (smembers k d) ↔ ((view d).sets k x ≡ true)
  pub hvals_law :
      (k x : String) (d : Db) → In x (hvals k d) ↔ ((f : String) × ((view d).hashes k f ≡ some x))
  pub range_due :
      (k x : String) (now : ℤ) (n : ℕ) (d : Db)
      → In x (range_by_score k now n d)
      → (score : ℤ) × ((view d).sorted k x ≡ some score) × (score ≤ℤ now)
  pub range_size : (k : String) (now : ℤ) (n : ℕ) (d : Db) → length (range_by_score k now n d) ≤ n
  pub range_all :
      (k x : String) (now score : ℤ) (n : ℕ) (d : Db)
      → length (range_by_score k now n d) < n
      → (view d).sorted k x ≡ some score
      → score ≤ℤ now
      → In x (range_by_score k now n d)
  pub brpop_empty :
      (ks : List String) (d : Db) → All (λ k. (view d).lists k ≡ []) ks → brpop ks d ≡ (none, d)
  pub brpop_last :
      (before : List String) (k : String) (after : List String) (xs : List String) (x : String)
      (d : Db)
      → All (λ j. (view d).lists j ≡ []) before
      → (view d).lists k ≡ xs ++ x ∷ []
      → ((brpop (before ++ k ∷ after) d).0 ≡ some x)
        × (view (brpop (before ++ k ∷ after) d).1
            ≡ record (view d) { lists = put k xs (view d).lists })
  pub set_nx_free :
      (k x : String) (ttl : ℤ) (d : Db)
      → (view d).texts k ≡ none
      → ((set_nx k x ttl d).0 ≡ true) × (view (set_nx k x ttl d).1 ≡ effect (set k x) (view d))
  pub set_nx_taken :
      (k x y : String) (ttl : ℤ) (d : Db)
      → (view d).texts k ≡ some y
      → set_nx k x ttl d ≡ (false, d)

-- How a round trip ends: with its answer, or with an error of the connection after the server has
-- executed that many of its commands.
pub data Trip : Type 0 where
  answered : Trip
  lost : ℕ → Trip

-- The round trips of a call, in their order, and what the other clients do to the data before each.
pub record World (Db : Type 0) : Type 0 where
  pub trip : ℕ → Trip
  pub meanwhile : ℕ → Db → Db

-- A call that is alone, with a connection that holds.
abbrev pub quiet : {Db : Type 0} → World Db
quiet = record { trip = λ i. answered; meanwhile = λ i d. d }

module _ (r : Redis) where
  open r use {Db, apply}

  abbrev pub apply_all : List Command → Db → Db
  apply_all [] d = d
  apply_all (c ∷ cs) d = apply_all cs (apply c d)

  module _ {A : Type 0} (w : World Db) where
    -- A command that reads.
    abbrev pub ask : ℕ → Db → (Db → Result A × Db) → Result A × Db
    ask i d next = elim (w.trip i) [
      | answered ↦ next (w.meanwhile i d)
      | lost n ↦ (err err_backend, w.meanwhile i d)
    ]

    -- A pipeline of commands that write.
    abbrev pub send : ℕ → List Command → Db → (Db → Result A × Db) → Result A × Db
    send i cs d next = elim (w.trip i) [
      | answered ↦ next (apply_all cs (w.meanwhile i d))
      | lost n ↦ (err err_backend, apply_all (take n cs) (w.meanwhile i d))
    ]

    -- A script or a command that reads and writes: one step of the server, or none.
    abbrev pub call :
        {B : Type 0} → ℕ → (Db → B × Db) → Db → (B × Db → Result A × Db) → Result A × Db
    call i body d next = elim (w.trip i) [
      | answered ↦ next (body (w.meanwhile i d))
      | lost zero ↦ (err err_backend, w.meanwhile i d)
      | lost (suc n) ↦ (err err_backend, (body (w.meanwhile i d)).1)
    ]

  -- What follows a call, and the return of its error.
  abbrev pub after : {A B : Type 0} → Result A × Db → (A → Db → Result B × Db) → Result B × Db
  after (ok a, d) next = next a d
  after (err e, d) next = (err e, d)
  after (fault, d) next = (fault, d)

  abbrev pub done : Db → Result (Unit {0}) × Db
  done d = (ok tt, d)
