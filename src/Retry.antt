-- ===== src/Retry.antt =====
-- teldrive_lab/retry.py and the shim teldrive_lab/transfer_errors.py: classes of errors, and the
-- bounded backoff. Delays are counted in microseconds, the jitter and random values in millionths,
-- and the delay that is returned in millionths of a millionth of a microsecond, so that all is exact.
pub mod Laws
use teldrive_lab.Prelude.{
  ℕ, zero, suc, ◌+◌, ◌-◌, ◌*◌, ◌^◌, min, String, Bool, true, false, ◌||◌, Option, none, some, List,
  [], ◌∷◌, ltb, leb, eqb, if◌then◌else◌, or_text, ℤ, pos, negsuc, positive, nonnegative,
}
use teldrive_lab.Exec.{Result, ok, err, value_error, overflow_error}
use teldrive_lab.Text.{upper, lower, contains, is_one_of}

pub data RetryClass : Type 0 where
  transient rate_limited integrity permanent unsafe : RetryClass

pub record RetryPolicy : Type 0 where
  pub max_attempts : ℕ
  pub base_delay : ℕ
  pub max_delay : ℕ
  pub jitter : ℕ

-- 1.0, in millionths
abbrev pub one : ℕ
one = 1000000

abbrev pub default_policy : RetryPolicy
default_policy = record {
  max_attempts = 3;
  base_delay = 2000000;
  max_delay = 60000000;
  jitter = 250000;
}

abbrev check_jitter : ℕ → ℕ → ℕ → ℤ → Result RetryPolicy
check_jitter n base limit (pos j) =
    if leb j one
    then ok (record { max_attempts = n; base_delay = base; max_delay = limit; jitter = j })
    else err (value_error "jitter must be between 0 and 1")
check_jitter n base limit (negsuc j) = err (value_error "jitter must be between 0 and 1")

abbrev check_delays : ℕ → Option ℕ → Option ℕ → ℤ → Result RetryPolicy
check_delays n (some base) (some limit) jitter =
    if ltb limit base
    then err (value_error "max_delay must be >= base_delay")
    else check_jitter n base limit jitter
check_delays n _ _ jitter = err (value_error "delays must be non-negative")

abbrev check_attempts : Option ℕ → ℤ → ℤ → ℤ → Result RetryPolicy
check_attempts none base limit jitter = err (value_error "max_attempts must be >= 1")
check_attempts (some n) base limit jitter =
    check_delays n (nonnegative base) (nonnegative limit) jitter

-- The constructor with `__post_init__`.
unfoldable pub policy : (max_attempts base_delay max_delay jitter : ℤ) → Result RetryPolicy
policy max_attempts base limit jitter = check_attempts (positive max_attempts) base limit jitter

-- min(max_delay, base_delay * 2 ** (attempt - 1))
abbrev pub raw_delay : RetryPolicy → ℕ → ℕ
raw_delay p attempt = min p.max_delay (p.base_delay * 2 ^ (attempt - 1))

-- 1 - jitter + 2 * jitter * value, in millionths of a millionth
abbrev pub factor : RetryPolicy → ℕ → ℕ
factor p value = (one - p.jitter) * one + 2 * p.jitter * value

abbrev jittered : RetryPolicy → ℕ → ℤ → Result ℕ
jittered p attempt (negsuc value) = err (value_error "random_value must be between 0 and 1")
jittered p attempt (pos value) =
    if leb value one
    then ok (min (p.max_delay * (one * one)) (raw_delay p attempt * factor p value))
    else err (value_error "random_value must be between 0 and 1")

-- Past attempt 1024 the power of two is beyond the floats, and its product raises.
abbrev delay_checked : RetryPolicy → Option ℕ → ℤ → Result ℕ
delay_checked p none value = err (value_error "attempt must be >= 1")
delay_checked p (some attempt) value =
    if ltb 1024 attempt
    then err (overflow_error "int too large to convert to float")
    else if eqb p.jitter 0
    then ok (raw_delay p attempt * (one * one))
    else jittered p attempt value

-- `delay`, with the value that is used: `random_value`, or what `random.random()` returns.
unfoldable pub delay : RetryPolicy → (attempt random_value : ℤ) → Result ℕ
delay p attempt value = delay_checked p (positive attempt) value

-- retry.py
unfoldable pub classify_transfer_error :
    (error_code : Option String) (is_protected : Bool) → RetryClass
unfolding upper
classify_transfer_error error_code is_protected =
    let code = upper (or_text error_code "") in
    if is_protected
    then RetryClass.unsafe
    else if is_one_of code
        ("UNAUTHORIZED" ∷ "PROTECTED_PRODUCTION" ∷ "UNSAFE_OPERATION" ∷ "POLICY_DENIED" ∷ [])
    then RetryClass.unsafe
    else if is_one_of code
        ("TRANSFER_INPUT" ∷ "SOURCE_MISSING" ∷ "DESTINATION_EXISTS" ∷ "UNSUPPORTED" ∷ [])
    then RetryClass.permanent
    else if is_one_of code ("RATE_LIMIT" ∷ "RATE_LIMITED" ∷ "HTTP_429" ∷ "FLOOD_WAIT" ∷ [])
    then RetryClass.rate_limited
    else if is_one_of code ("VERIFY_MISMATCH" ∷ "CHECKSUM_MISMATCH" ∷ "INTEGRITY" ∷ [])
    then RetryClass.integrity
    else RetryClass.transient

-- transfer_errors.py
unfoldable pub classify_error_text : Option String → RetryClass
unfolding lower contains
classify_error_text error =
    let text = lower (or_text error "") in
    if contains "checksum" text || contains "integrity" text || contains "mismatch" text
    then RetryClass.integrity
    else if contains "rate limit" text
        || contains "too many requests" text
        || contains "429" text
        || contains "retry-after" text
    then RetryClass.rate_limited
    else if contains "timeout" text
        || contains "timed out" text
        || contains "temporar" text
        || contains "connection reset" text
        || contains "connection refused" text
        || contains "unavailable" text
        || contains "network" text
    then RetryClass.transient
    else if contains "unauthorized" text
        || contains "protected" text
        || contains "unsafe" text
        || contains "policy denied" text
    then RetryClass.unsafe
    else RetryClass.permanent
