-- ===== src/Redis/Expiry.antt =====
-- internal/storage/redis/misc.go: what RemoveExpired keeps.
use mathlib.Core.Bool.{false≢true}
use gfire.Prelude.{
  ℕ, suc, ◌+◌, ◌*◌, ◌≡◌, refl, sym, ap, ◌∙◌, String, true, false, some, List, [], ◌∷◌, ◌==◌, length,
  inl, inr, Bool-cases, Option-cases,
}
use gfire.Prelude.Dict.{Dict, ne_false, some_path}
use gfire.Prelude.Result.{Result, ok, err, fault}
use gfire.Job.{state_succeeded, state_failed, state_deleted}
use gfire.Redis.{Redis, Command, View, quiet, ask, after}
use gfire.Redis.Keys.{job_key, job_states_key, state_index_key}
use gfire.Redis.Codec.{Codec, field}
use gfire.Redis.Maintenance.{
  forget_commands, forget_job, is_before, remove_members, remove_states, remove_expired,
}
use gfire.Redis.Apart.{processing_key-job_key, continuations_key-job_key}
use gfire.Redis.Laws.{effects, view-apply_all}

-- A job loses its hash to the deletion of no other job, unless the history of that other job has
-- the name of its hash.
forget_commands-hash :
    (id state queue j : String) (v : View)
    → (job_key j == job_key id) ≡ false
    → (job_states_key j == job_key id) ≡ false
    → (effects (forget_commands j state queue) v).hashes (job_key id) ≡ v.hashes (job_key id)
forget_commands-hash id state queue j v e f = elim (Bool-cases (queue == "")) [
  | inl g ↦ rw (g, continuations_key-job_key j id, processing_key-job_key id, f, e) refl
  | inr g ↦ rw (g, continuations_key-job_key j id, processing_key-job_key id, f, e) refl
]

module _ (r : Redis) (c : Codec) (cutoff : ℕ) (id raw : String)
    (fresh : is_before r c cutoff raw ≡ false)
    (apart : (j : String) → (job_states_key j == job_key id) ≡ false) (hash : Dict String)
    (e : hash "updated_at" ≡ some raw) where
  abbrev HasHash : r.Db → Type 0
  HasHash d = (r.view d).hashes (job_key id) ≡ hash

  -- A job that RemoveExpired deletes is another one.
  other :
      (d : r.Db) (j raw' : String)
      → HasHash d
      → (r.view d).hashes (job_key j) "updated_at" ≡ some raw'
      → is_before r c cutoff raw' ≡ true
      → (job_key j == job_key id) ≡ false
  other d j raw' h u b = ne_false (job_key j) (job_key id) (λ same. clash (
      sym u ∙ (ap (λ k. (r.view d).hashes k "updated_at") same ∙ (ap (λ g. g "updated_at") h ∙ e))))
    where
      clash : some raw' ≡ some raw → ⊥
      clash p =
          false≢true
            (sym fresh ∙ (ap (λ x. is_before r c cutoff x) (sym (some_path raw' raw p)) ∙ b))

  forget_keeps :
      (i : ℕ) (j state : String) (d : r.Db)
      → HasHash d
      → (job_key j == job_key id) ≡ false
      → HasHash (forget_job r c quiet i j state d).1
  unfolding forget_job
  forget_keeps i j state d h o =
      let commands : List Command =
        forget_commands j state (field c "queue" ((r.view d).hashes (job_key j))) in
      rw (view-apply_all r commands d) (
        forget_commands-hash id state (field c "queue" ((r.view d).hashes (job_key j))) j (r.view d)
          o (apart j)
        ∙ h)

  members_keep :
      (i : ℕ) (state : String) (deleted : ℕ) (ids : List String) (d : r.Db)
      → HasHash d
      → HasHash (remove_members r c quiet i cutoff state deleted ids d).1
  unfolding remove_members
  members_keep i state deleted [] d h = h
  members_keep i state deleted (j ∷ ids) d h =
      elim (Option-cases ((r.view d).hashes (job_key j) "updated_at")) [
        | inl u ↦ rw (remove_members, ask, u) (members_keep (i + 3) state deleted ids d h)
        | inr (raw', u) ↦ elim (Bool-cases (is_before r c cutoff raw')) [
          | inr b ↦ rw (remove_members, ask, u, b) (members_keep (i + 3) state deleted ids d h)
          | inl b ↦
              rw (remove_members, ask, u, b)
                (members_keep (i + 3) state (suc deleted) ids
                  (forget_job r c quiet (i + 1) j state d).1
                  (forget_keeps (i + 1) j state d h (other d j raw' h u b)))
        ]
      ]

  after_keeps :
      (o : Result ℕ × r.Db) (next : ℕ → r.Db → Result ℕ × r.Db)
      → HasHash o.1
      → ((n : ℕ) (d : r.Db) → HasHash d → HasHash (next n d).1)
      → HasHash (after r o next).1
  after_keeps (ok n, d) next h f = f n d h
  after_keeps (err x, d) next h f = h
  after_keeps (fault, d) next h f = h

  states_keep :
      (i deleted : ℕ) (states : List String) (d : r.Db)
      → HasHash d
      → HasHash (remove_states r c quiet i cutoff deleted states d).1
  unfolding remove_states
  states_keep i deleted [] d h = h
  states_keep i deleted (state ∷ states) d h =
      let ids : List String = r.smembers (state_index_key state) d in
      after_keeps (remove_members r c quiet (i + 1) cutoff state deleted ids d)
        (λ n d2. remove_states r c quiet (i + 1 + 3 * length ids) cutoff n states d2)
        (members_keep (i + 1) state deleted ids d h)
        (λ n d2 h2. states_keep (i + 1 + 3 * length ids) n states d2 h2)

module _ (r : Redis) (c : Codec) where
  -- RemoveExpired, on its own, leaves the hash of a job as it is when its field
  -- updated_at is there and its time is not found to be before the cutoff. No id keeps its history under the
  -- key of that hash.
  pub remove_expired_keeps :
      (cutoff : ℕ) (id raw : String) (d : r.Db)
      → (r.view d).hashes (job_key id) "updated_at" ≡ some raw
      → is_before r c cutoff raw ≡ false
      → ((j : String) → (job_states_key j == job_key id) ≡ false)
      → (r.view (remove_expired r c quiet cutoff d).1).hashes (job_key id)
        ≡ (r.view d).hashes (job_key id)
  unfolding remove_expired
  remove_expired_keeps cutoff id raw d e fresh apart =
      states_keep r c cutoff id raw fresh apart ((r.view d).hashes (job_key id)) e 0 0
        (state_succeeded ∷ state_failed ∷ state_deleted ∷ []) d refl
