-- ===== src/Engine/Retry.antt =====
-- internal/engine/retry.go: the delay before a retry, in int64 nanoseconds.
use gfire.Prelude.{
  ℕ, zero, suc, ◌+◌, ◌*◌, ◌^◌, ◌≡◌, ◌≢◌, ◌≤◌, ◌<◌, refl, Bool, true, false, if◌then◌else◌, arith,
  ltb, eqb, ◌&&◌, ◌||◌, inl, inr, ◌⊎◌,
}
use gfire.Prelude.Int.{ℤ, pos, negsuc, ◌+ℤ◌, ◌≤ℤ◌, ltb_ℤ, leb_ℤ, int64}

abbrev pub second : ℕ
second = 1_000_000_000

abbrev pub minute : ℕ
minute = 60 * second

abbrev pub hour : ℕ
hour = 3600 * second

abbrev pub default_retry_max : ℤ
default_retry_max = pos 10

abbrev shift_of : ℤ → ℕ
shift_of (pos n) = if ltb 30 n then 30 else n
shift_of (negsuc n) = 0

-- retryBaseDelay * time.Duration(1<<shift), capped: the product is an int64.
abbrev pub capped : ℕ → ℤ
capped shift =
    let delay = int64 (pos (minute * 2 ^ shift)) in
    if ltb_ℤ (pos hour) delay then pos hour else delay

-- RetryDelay; `jitter` is the value of rand.Int63n(second).
unfoldable pub retry_delay : ℤ → ℕ → ℤ
retry_delay attempt jitter = capped (shift_of attempt) +ℤ pos jitter

-- effectiveRetryMax
unfoldable pub effective_retry_max : ℤ → ℤ
effective_retry_max (pos zero) = default_retry_max
effective_retry_max (pos (suc n)) = pos (suc n)
effective_retry_max (negsuc n) = negsuc n

-- A test of every shift from 0 to `limit`.
passes : (ℕ → Bool) → ℕ → Bool
passes test zero = test zero
passes test (suc limit) = if test (suc limit) then passes test limit else false

passes_at :
    (test : ℕ → Bool) (limit shift : ℕ)
    → shift ≤ limit
    → passes test limit ≡ true
    → test shift ≡ true
unfolding passes
passes_at test zero zero _ table = table
passes_at test zero (suc shift) bound _ = absurd (omega (arith, bound))
passes_at test (suc limit) shift bound table = ground (arith, passes_at test limit shift)

abbrev overflows : ℕ → Bool
overflows n = eqb n 28 || eqb n 29

-- The capped delay is within a minute and an hour, or negative where the product overflows.
abbrev as_expected : ℕ → Bool
as_expected n =
    if overflows n
    then ltb_ℤ (capped n) (pos 0)
    else leb_ℤ (pos minute) (capped n) && leb_ℤ (capped n) (pos hour)

abbrev below_second : ℕ → Bool
below_second n = if overflows n then ltb_ℤ (capped n +ℤ pos second) (pos 0) else true

delay_table : passes as_expected 30 ≡ true
unfolding passes int64
delay_table = refl

overflow_table : passes below_second 30 ≡ true
unfolding passes int64 ◌+ℤ◌
overflow_table = refl

shift_bound : (n : ℕ) → shift_of (pos n) < 31
shift_bound n = ground arith

shift_regular : (n : ℕ) → n ≢ 28 → n ≢ 29 → overflows (shift_of (pos n)) ≡ false
shift_regular n h k = ground arith

in_range :
    (z : ℤ) (jitter : ℕ)
    → (leb_ℤ (pos minute) z && leb_ℤ z (pos hour)) ≡ true
    → jitter < second
    → (pos minute ≤ℤ z +ℤ pos jitter) × (z +ℤ pos jitter ≤ℤ pos (hour + second))
unfolding ◌+ℤ◌
in_range z jitter h j = ground arith

negative :
    (z : ℤ) (jitter : ℕ)
    → ltb_ℤ (z +ℤ pos second) (pos 0) ≡ true
    → jitter < second
    → z +ℤ pos jitter ≤ℤ negsuc 0
unfolding ◌+ℤ◌
negative z jitter h j = ground arith

regular_attempt :
    (n jitter : ℕ)
    → n < 31
    → overflows n ≡ false
    → jitter < second
    → (pos minute ≤ℤ capped n +ℤ pos jitter) × (capped n +ℤ pos jitter ≤ℤ pos (hour + second))
regular_attempt n jitter h o j =
    in_range (capped n) jitter (rw o at (passes_at as_expected 30 n (omega arith) delay_table)) j

-- The delay of every attempt number from 0 on but 28 and 29 lies between a minute and an hour and
-- a second, for every jitter below a second.
pub retry_delay_bounds :
    (n jitter : ℕ)
    → n ≢ 28
    → n ≢ 29
    → jitter < second
    → (pos minute ≤ℤ retry_delay (pos n) jitter)
      × (retry_delay (pos n) jitter ≤ℤ pos (hour + second))
unfolding retry_delay
retry_delay_bounds n jitter h k j =
    regular_attempt (shift_of (pos n)) jitter (shift_bound n) (shift_regular n h k) j

-- At the attempts 28 and 29 the delay is negative, for every jitter below a second.
pub retry_delay_overflows :
    (n jitter : ℕ) → (n ≡ 28) ⊎ (n ≡ 29) → jitter < second → retry_delay (pos n) jitter ≤ℤ negsuc 0
unfolding retry_delay
retry_delay_overflows n jitter (inl e) j =
    rw e (negative (capped 28) jitter (passes_at below_second 30 28 (omega arith) overflow_table) j)
retry_delay_overflows n jitter (inr e) j =
    rw e (negative (capped 29) jitter (passes_at below_second 30 29 (omega arith) overflow_table) j)
