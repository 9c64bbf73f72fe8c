-- ===== src/Redis/Codec.antt =====
-- internal/storage/redis/codec.go: a job as the fields of a hash, and the texts of the other records.
use gfire.Prelude.{
  ℕ, ◌*◌, ◌/◌, ◌≡◌, String, Option, none, some, get_or, List, [], ◌∷◌, ◌++◌, ◌==◌, eqb,
  if◌then◌else◌,
}
use gfire.Prelude.Int.{ℤ, pos, negsuc, int64}
use gfire.Prelude.Dict.{Dict}
use gfire.Job.{Job, JobState, ServerInfo, RecurringJobEntry, ContinuationEntry}

-- The conversions of the standard library that the store uses: strings and byte slices, encoding/json,
-- Time.Format and time.Parse with RFC3339Nano, strconv.Itoa and Atoi (0 for a text that is none),
-- and what they promise.
pub record Codec : Type 0 where
  pub text : List ℕ → String
  pub bytes : String → List ℕ
  pub format : ℕ → String
  pub parse : String → Option ℕ
  pub itoa : ℤ → String
  pub atoi : String → ℤ
  pub marshal_state : JobState → String
  pub unmarshal_state : String → Option JobState
  pub marshal_server : ServerInfo → String
  pub unmarshal_server : String → Option ServerInfo
  pub marshal_recurring : RecurringJobEntry → String
  pub unmarshal_recurring : String → Option RecurringJobEntry
  pub marshal_continuation : ContinuationEntry → String
  pub unmarshal_continuation : String → Option ContinuationEntry
  pub bytes_text : (b : List ℕ) → bytes (text b) ≡ b
  pub bytes_empty : bytes "" ≡ []
  pub parse_format : (t : ℕ) → parse (format t) ≡ some t
  pub parse_empty : parse "" ≡ none
  pub atoi_itoa : (n : ℤ) → atoi (itoa n) ≡ n
  pub state_law : (st : JobState) → unmarshal_state (marshal_state st) ≡ some st
  pub server_law : (sv : ServerInfo) → unmarshal_server (marshal_server sv) ≡ some sv
  pub recurring_law : (e : RecurringJobEntry) → unmarshal_recurring (marshal_recurring e) ≡ some e
  pub continuation_law :
      (e : ContinuationEntry) → unmarshal_continuation (marshal_continuation e) ≡ some e

-- timeoutMS
abbrev pub timeout_ms : ℤ → ℤ
timeout_ms (pos n) = pos (n / 1_000_000)
timeout_ms (negsuc n) = pos 0

-- durationFromMS
abbrev pub duration_from_ms : ℤ → ℤ
duration_from_ms (pos n) = int64 (pos (n * 1_000_000))
duration_from_ms (negsuc n) = pos 0

module _ (c : Codec) where
  abbrev pub progress_field : ℕ → List (String × String)
  progress_field at = if eqb at 0 then [] else ("progress_at", c.format at) ∷ []

  abbrev pub result_field : List ℕ → List (String × String)
  result_field [] = []
  result_field (b ∷ bytes) = ("result", c.text (b ∷ bytes)) ∷ []

  -- jobHashFields; `now` is its reading of the clock.
  unfoldable pub job_hash_fields : Job → String → ℕ → ℕ → List (String × String)
  job_hash_fields job state progress_at now =
      (("id", job.id)
        ∷ ("name", job.name)
        ∷ ("args", c.text job.args)
        ∷ ("queue", job.queue)
        ∷ ("retry_max", c.itoa job.retry_max)
        ∷ ("timeout_ms", c.itoa (timeout_ms job.timeout))
        ∷ ("created_at", c.format job.created_at)
        ∷ ("updated_at", c.format now)
        ∷ ("state", state)
        ∷ [])
      ++ (progress_field progress_at ++ result_field job.result)

  -- fields[key]
  abbrev pub field : String → Dict String → String
  field key fields = get_or (fields key) ""

  abbrev pub or_zero : Option ℕ → ℕ
  or_zero none = 0
  or_zero (some t) = t

  abbrev pub result_of : String → List ℕ
  result_of r = if r == "" then [] else c.bytes r

  -- jobFromHash: the job, its state and the time of its progress.
  unfoldable pub job_from_hash : Dict String → Option (Job × String × ℕ)
  job_from_hash fields =
      if field "id" fields == ""
      then none
      else some (
        record {
          id = field "id" fields;
          name = field "name" fields;
          args = c.bytes (field "args" fields);
          queue = field "queue" fields;
          retry_max = c.atoi (field "retry_max" fields);
          timeout = duration_from_ms (c.atoi (field "timeout_ms" fields));
          idempotency_key = "";
          created_at = or_zero (c.parse (field "created_at" fields));
          result = result_of (field "result" fields);
        },
        field "state" fields,
        or_zero (c.parse (field "progress_at" fields)),
      )
