-- ===== src/Memory/WellFormed.antt =====
-- The consistency of the store's maps: what the methods of memory.go rely on and keep.
use gfire.Prelude.{ℕ, ◌≡◌, refl, String, true, false, some, List, [], ◌∷◌, ◌++◌, is_empty, arith}
use gfire.Prelude.Int.{ℤ}
use gfire.Prelude.Dict.{
  Dict, contains, insert, erase, Within, Within-insert_both, Within-insert_right,
  Within-insert_left, Within-erase_left, Within-erase_both, insert_entries, erase_entries,
}
use gfire.Job.{Job, JobState}
use gfire.Memory.{Store, new}

-- A job is stored under its id and has a history, which is not empty; every other entry about a
-- job is about a job that is there.
pub record Consistent (jobs : Dict Job) (job_states : Dict (List JobState)) (queue_tokens : Dict ℤ)
    (scheduled : Dict ℕ) (processing : Dict String) (progress : Dict ℕ) : Type 0 where
  pub keyed : (k : String) (j : Job) → jobs k ≡ some j → j.id ≡ k
  pub with_history : Within jobs job_states
  pub known_history : Within job_states jobs
  pub nonempty : (k : String) (l : List JobState) → job_states k ≡ some l → is_empty l ≡ false
  pub known_token : Within queue_tokens jobs
  pub known_scheduled : Within scheduled jobs
  pub known_processing : Within processing jobs
  pub known_progress : Within progress jobs

abbrev pub IsWellFormed : Store → Type 0
IsWellFormed s = Consistent s.jobs s.job_states s.queue_tokens s.scheduled s.processing s.progress

is_empty-append : (l : List JobState) (a : JobState) → is_empty (l ++ a ∷ []) ≡ false
is_empty-append [] a = refl
is_empty-append (x ∷ l) a = refl

pub new-IsWellFormed : IsWellFormed new
new-IsWellFormed = record {
  keyed = λ k j p. ground arith;
  with_history = λ k p. ground arith;
  known_history = λ k p. ground arith;
  nonempty = λ k l p. ground arith;
  known_token = λ k p. ground arith;
  known_scheduled = λ k p. ground arith;
  known_processing = λ k p. ground arith;
  known_progress = λ k p. ground arith;
}

-- One write at a key, in each way that a method makes it.
module _ {jobs : Dict Job} {states : Dict (List JobState)} {tokens : Dict ℤ} {scheduled : Dict ℕ}
    {processing : Dict String} {progress : Dict ℕ} (id : String)
    (w : Consistent jobs states tokens scheduled processing progress) where
  -- A longer history of a stored job.
  pub push-Consistent :
      (l : List JobState) (st : JobState)
      → contains id jobs ≡ true
      → Consistent jobs (insert id (l ++ st ∷ []) states) tokens scheduled processing progress
  push-Consistent l st known = record {
    keyed = w.keyed;
    with_history = Within-insert_right jobs states w.with_history id _;
    known_history = Within-insert_left states jobs w.known_history id _ known;
    nonempty =
        insert_entries (λ _ l. is_empty l ≡ false) states id _ (is_empty-append l st) w.nonempty;
    known_token = w.known_token;
    known_scheduled = w.known_scheduled;
    known_processing = w.known_processing;
    known_progress = w.known_progress;
  }

  -- Another job value under its own id.
  pub put-Consistent :
      (job : Job)
      → job.id ≡ id
      → contains id jobs ≡ true
      → Consistent (insert id job jobs) states tokens scheduled processing progress
  put-Consistent job same known = record {
    keyed = insert_entries (λ k j. j.id ≡ k) jobs id job same w.keyed;
    with_history = Within-insert_left jobs states w.with_history id job (w.with_history id known);
    known_history = Within-insert_right states jobs w.known_history id job;
    nonempty = w.nonempty;
    known_token = Within-insert_right tokens jobs w.known_token id job;
    known_scheduled = Within-insert_right scheduled jobs w.known_scheduled id job;
    known_processing = Within-insert_right processing jobs w.known_processing id job;
    known_progress = Within-insert_right progress jobs w.known_progress id job;
  }

  -- An entry of the schedule.
  pub schedule-Consistent :
      (t : ℕ)
      → contains id jobs ≡ true
      → Consistent jobs states tokens (insert id t scheduled) processing progress
  schedule-Consistent t known = record {
    keyed = w.keyed;
    with_history = w.with_history;
    known_history = w.known_history;
    nonempty = w.nonempty;
    known_token = w.known_token;
    known_scheduled = Within-insert_left scheduled jobs w.known_scheduled id t known;
    known_processing = w.known_processing;
    known_progress = w.known_progress;
  }

  -- Off the schedule.
  pub unschedule-Consistent : Consistent jobs states tokens (erase id scheduled) processing progress
  unschedule-Consistent = record {
    keyed = w.keyed;
    with_history = w.with_history;
    known_history = w.known_history;
    nonempty = w.nonempty;
    known_token = w.known_token;
    known_scheduled = Within-erase_left scheduled jobs w.known_scheduled id;
    known_processing = w.known_processing;
    known_progress = w.known_progress;
  }

  -- An entry of the jobs in process.
  pub start-Consistent :
      (server : String)
      → contains id jobs ≡ true
      → Consistent jobs states tokens scheduled (insert id server processing) progress
  start-Consistent server known = record {
    keyed = w.keyed;
    with_history = w.with_history;
    known_history = w.known_history;
    nonempty = w.nonempty;
    known_token = w.known_token;
    known_scheduled = w.known_scheduled;
    known_processing = Within-insert_left processing jobs w.known_processing id server known;
    known_progress = w.known_progress;
  }

  -- Out of process.
  pub stop-Consistent : Consistent jobs states tokens scheduled (erase id processing) progress
  stop-Consistent = record {
    keyed = w.keyed;
    with_history = w.with_history;
    known_history = w.known_history;
    nonempty = w.nonempty;
    known_token = w.known_token;
    known_scheduled = w.known_scheduled;
    known_processing = Within-erase_left processing jobs w.known_processing id;
    known_progress = w.known_progress;
  }

  -- A heartbeat.
  pub beat-Consistent :
      (t : ℕ)
      → contains id jobs ≡ true
      → Consistent jobs states tokens scheduled processing (insert id t progress)
  beat-Consistent t known = record {
    keyed = w.keyed;
    with_history = w.with_history;
    known_history = w.known_history;
    nonempty = w.nonempty;
    known_token = w.known_token;
    known_scheduled = w.known_scheduled;
    known_processing = w.known_processing;
    known_progress = Within-insert_left progress jobs w.known_progress id t known;
  }

  -- No heartbeat any more.
  pub silence-Consistent : Consistent jobs states tokens scheduled processing (erase id progress)
  silence-Consistent = record {
    keyed = w.keyed;
    with_history = w.with_history;
    known_history = w.known_history;
    nonempty = w.nonempty;
    known_token = w.known_token;
    known_scheduled = w.known_scheduled;
    known_processing = w.known_processing;
    known_progress = Within-erase_left progress jobs w.known_progress id;
  }

  -- A job with its first state.
  pub create-Consistent :
      (job : Job) (st : JobState) (token : ℤ)
      → job.id ≡ id
      → Consistent
          (insert id job jobs)
          (insert id (st ∷ []) states)
          (insert id token tokens)
          scheduled
          processing
          progress
  create-Consistent job st token same = record {
    keyed = insert_entries (λ k j. j.id ≡ k) jobs id job same w.keyed;
    with_history = Within-insert_both jobs states w.with_history id job (st ∷ []);
    known_history = Within-insert_both states jobs w.known_history id (st ∷ []) job;
    nonempty = insert_entries (λ _ l. is_empty l ≡ false) states id (st ∷ []) refl w.nonempty;
    known_token = Within-insert_both tokens jobs w.known_token id token job;
    known_scheduled = Within-insert_right scheduled jobs w.known_scheduled id job;
    known_processing = Within-insert_right processing jobs w.known_processing id job;
    known_progress = Within-insert_right progress jobs w.known_progress id job;
  }

  -- A job that is scheduled from the start.
  pub defer-Consistent :
      (job : Job) (st : JobState) (at : ℕ)
      → job.id ≡ id
      → Consistent
          (insert id job jobs)
          (insert id (st ∷ []) states)
          tokens
          (insert id at scheduled)
          processing
          progress
  defer-Consistent job st at same = record {
    keyed = insert_entries (λ k j. j.id ≡ k) jobs id job same w.keyed;
    with_history = Within-insert_both jobs states w.with_history id job (st ∷ []);
    known_history = Within-insert_both states jobs w.known_history id (st ∷ []) job;
    nonempty = insert_entries (λ _ l. is_empty l ≡ false) states id (st ∷ []) refl w.nonempty;
    known_token = Within-insert_right tokens jobs w.known_token id job;
    known_scheduled = Within-insert_both scheduled jobs w.known_scheduled id at job;
    known_processing = Within-insert_right processing jobs w.known_processing id job;
    known_progress = Within-insert_right progress jobs w.known_progress id job;
  }

  -- All that is known of a job.
  pub forget-Consistent :
      Consistent
        (erase id jobs)
        (erase id states)
        (erase id tokens)
        (erase id scheduled)
        (erase id processing)
        (erase id progress)
  forget-Consistent = record {
    keyed = erase_entries (λ k j. j.id ≡ k) jobs id w.keyed;
    with_history = Within-erase_both jobs states w.with_history id;
    known_history = Within-erase_both states jobs w.known_history id;
    nonempty = erase_entries (λ _ l. is_empty l ≡ false) states id w.nonempty;
    known_token = Within-erase_both tokens jobs w.known_token id;
    known_scheduled = Within-erase_both scheduled jobs w.known_scheduled id;
    known_processing = Within-erase_both processing jobs w.known_processing id;
    known_progress = Within-erase_both progress jobs w.known_progress id;
  }
