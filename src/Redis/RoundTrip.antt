-- ===== src/Redis/RoundTrip.antt =====
-- internal/storage/redis/codec.go: a job written as a hash and read back.
use gfire.Prelude.{
  ℕ, ◌*◌, ◌/◌, ◌^◌, ◌<◌, ◌≡◌, refl, sym, ap, ◌∙◌, String, false, none, some, List, [], ◌∷◌, ◌++◌,
  zero, suc, ◌==◌, arith,
}
use gfire.Prelude.Int.{pos, int64_small}
use gfire.Prelude.Dict.{Dict, empty, ne_false}
use gfire.Job.{Job}
use gfire.Redis.{set_fields}
use gfire.Redis.Codec.{
  Codec, job_hash_fields, job_from_hash, field, result_of, timeout_ms, duration_from_ms,
  progress_field, result_field, or_zero,
}

module _ (c : Codec) where
  text_nonempty : (b : ℕ) (bytes : List ℕ) → (c.text (b ∷ bytes) == "") ≡ false
  text_nonempty b bytes =
      ne_false (c.text (b ∷ bytes)) ""
        (λ e. absurd (List-cons (sym (c.bytes_text (b ∷ bytes)) ∙ (ap c.bytes e ∙ c.bytes_empty))))
    where
      List-cons : {b : ℕ} {bytes : List ℕ} → b ∷ bytes ≡ [] → ⊥
      List-cons e = cc

  timeout_lem :
      (n : ℕ) → n < 2 ^ 63 → duration_from_ms (timeout_ms (pos n)) ≡ pos (n / 1_000_000 * 1_000_000)
  timeout_lem n h = int64_small (n / 1_000_000 * 1_000_000) (omega arith)

  progress_field-suc : (n : ℕ) → progress_field c (suc n) ≡ ("progress_at", c.format (suc n)) ∷ []
  progress_field-suc n = ground arith

  -- The optional fields leave the others alone.
  pub extras-other :
      (at : ℕ) (result : List ℕ) (h : Dict String) (f : String)
      → ("progress_at" == f) ≡ false
      → ("result" == f) ≡ false
      → set_fields (progress_field c at ++ result_field c result) h f ≡ h f
  extras-other zero [] h f p q = refl
  extras-other (suc n) [] h f p q = rw (progress_field-suc n, p) refl
  extras-other zero (b ∷ bytes) h f p q = rw q refl
  extras-other (suc n) (b ∷ bytes) h f p q = rw (progress_field-suc n, p, q) refl

  extras-progress :
      (at : ℕ) (result : List ℕ) (h : Dict String)
      → h "progress_at" ≡ none
      → or_zero c (
          c.parse
            (field c "progress_at" (set_fields (progress_field c at ++ result_field c result) h)))
        ≡ at
  extras-progress zero [] h e = rw (e, c.parse_empty) refl
  extras-progress (suc n) [] h e = rw (progress_field-suc n, c.parse_format (suc n)) refl
  extras-progress zero (b ∷ bytes) h e = rw (e, c.parse_empty) refl
  extras-progress (suc n) (b ∷ bytes) h e = rw (progress_field-suc n, c.parse_format (suc n)) refl

  extras-result :
      (at : ℕ) (result : List ℕ) (h : Dict String)
      → h "result" ≡ none
      → result_of c (field c "result" (set_fields (progress_field c at ++ result_field c result) h))
        ≡ result
  extras-result zero [] h e = rw e refl
  extras-result (suc n) [] h e = rw (progress_field-suc n, e) refl
  extras-result zero (b ∷ bytes) h e = rw (text_nonempty b bytes) (c.bytes_text (b ∷ bytes))
  extras-result (suc n) (b ∷ bytes) h e =
      rw (progress_field-suc n, text_nonempty b bytes) (c.bytes_text (b ∷ bytes))

  -- A job that is written as a hash is read back, with its state and the time of its progress. What the
  -- hash does not keep is the idempotency key and the part of the timeout below a millisecond. The
  -- job has an id, and its timeout is not negative.
  pub job_from_hash-job_hash_fields :
      (job : Job) (state : String) (progress_at now n : ℕ)
      → (job.id == "") ≡ false
      → job.timeout ≡ pos n
      → n < 2 ^ 63
      → job_from_hash c (set_fields (job_hash_fields c job state progress_at now) empty)
        ≡ some (
          record job { timeout = pos (n / 1_000_000 * 1_000_000); idempotency_key = "" },
          state,
          progress_at,
        )
  unfolding job_hash_fields job_from_hash
  job_from_hash-job_hash_fields job state progress_at now n h e small =
      let base : Dict String =
        set_fields
          (("id", job.id)
            ∷ ("name", job.name)
            ∷ ("args", c.text job.args)
            ∷ ("queue", job.queue)
            ∷ ("retry_max", c.itoa job.retry_max)
            ∷ ("timeout_ms", c.itoa (timeout_ms job.timeout))
            ∷ ("created_at", c.format job.created_at)
            ∷ ("updated_at", c.format now)
            ∷ ("state", state)
            ∷ [])
          empty in
      rw
        (
          job_from_hash,
          extras-other progress_at job.result base "id" refl refl,
          extras-other progress_at job.result base "name" refl refl,
          extras-other progress_at job.result base "args" refl refl,
          extras-other progress_at job.result base "queue" refl refl,
          extras-other progress_at job.result base "retry_max" refl refl,
          extras-other progress_at job.result base "timeout_ms" refl refl,
          extras-other progress_at job.result base "created_at" refl refl,
          extras-other progress_at job.result base "state" refl refl,
          h,
          c.bytes_text job.args,
          c.atoi_itoa job.retry_max,
          ap duration_from_ms (c.atoi_itoa (timeout_ms job.timeout))
              ∙ (ap (λ t. duration_from_ms (timeout_ms t)) e ∙ timeout_lem n small),
          c.parse_format job.created_at,
          extras-result progress_at job.result base refl,
          extras-progress progress_at job.result base refl,
        )
        refl
