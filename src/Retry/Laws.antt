-- ===== src/Retry/Laws.antt =====
-- The backoff is bounded, and grows with the attempts.
use native.Mathlib.Nat.{pow-suc, zero-add, suc-add}
use teldrive_lab.Prelude.{ℕ, zero, suc, ◌+◌, ◌-◌, ◌*◌, ◌^◌, ◌≤◌, ◌≡◌, arith, ℤ, pos}
use teldrive_lab.Exec.{ok}
use teldrive_lab.Retry.{RetryPolicy, policy, delay, one, raw_delay, factor}

-- What the constructor of a policy has checked.
pub record IsPolicy (p : RetryPolicy) : Type 0 where
  pub some_attempt : 1 ≤ p.max_attempts
  pub ordered : p.base_delay ≤ p.max_delay
  pub fraction : p.jitter ≤ one

-- A policy that the constructor accepts has an attempt, ordered delays and a jitter of at most 1.
pub policy-IsPolicy :
    (n base limit jitter : ℤ) (p : RetryPolicy) → policy n base limit jitter ≡ ok p → IsPolicy p
unfolding policy
policy-IsPolicy n base limit jitter p h = ground arith

abbrev pub unit : ℕ
unit = one * one

mul_mono : (a b c d : ℕ) → a ≤ b → c ≤ d → a * c ≤ b * d
mul_mono a b c d h g = grind arith

pow_step : (n : ℕ) → 2 ^ suc n ≡ 2 ^ n * 2
pow_step n = pow-suc 2 n

pow_mono : (n k : ℕ) → 2 ^ n ≤ 2 ^ (k + n)
pow_mono n zero = rw (zero-add n) (omega arith)
pow_mono n (suc k) = rw (suc-add k n) (omega (arith, pow_mono n k, pow_step (k + n)))

raw_delay_capped : (p : RetryPolicy) (a : ℕ) → raw_delay p a ≤ p.max_delay
raw_delay_capped p a = omega arith

pow_positive : (n : ℕ) → 1 ≤ 2 ^ n
pow_positive zero = omega arith
pow_positive (suc n) = rw (pow_step n) (omega (arith, pow_positive n))

pow_exponents : (a k : ℕ) → 2 ^ (a - 1) ≤ 2 ^ (k + a - 1)
pow_exponents zero k = pow_positive (k + 0 - 1)
pow_exponents (suc a) k = rw (last a k) (rw (before a) (pow_mono a k))
  where
    before : (a : ℕ) → suc a - 1 ≡ a
    before a = omega arith

    last : (a k : ℕ) → k + suc a - 1 ≡ k + a
    last a k = omega arith

raw_delay_mono : (p : RetryPolicy) (a k : ℕ) → raw_delay p a ≤ raw_delay p (k + a)
raw_delay_mono p a k = omega (
  arith,
  mul_mono p.base_delay p.base_delay (2 ^ (a - 1)) (2 ^ (k + a - 1)) (omega arith)
      (pow_exponents a k),
)

factor_nonjitter : (p : RetryPolicy) (v : ℕ) → (one - p.jitter) * one ≤ factor p v
factor_nonjitter p v = omega arith

-- With a checked policy, the n-th delay stands between the share of the exponential backoff that
-- the jitter leaves and `max_delay`, whatever random value from 0 to 1 is drawn.
pub delay_bounds :
    (p : RetryPolicy)
    → IsPolicy p
    → (attempt : ℕ) → 1 ≤ attempt
    → (value d : ℕ) → delay p (pos attempt) (pos value) ≡ ok d
    → (raw_delay p attempt * ((one - p.jitter) * one) ≤ d) × (d ≤ p.max_delay * unit)
unfolding delay
delay_bounds p h attempt k value d e = grind (
  arith,
  mul_mono (raw_delay p attempt) (raw_delay p attempt) ((one - p.jitter) * one) (factor p value)
      (omega arith) (factor_nonjitter p value),
  mul_mono (raw_delay p attempt) p.max_delay ((one - p.jitter) * one) unit
      (raw_delay_capped p attempt) (omega arith),
  mul_mono (raw_delay p attempt) p.max_delay unit unit (raw_delay_capped p attempt) (omega arith),
)

-- With a checked policy and the same random value, a later attempt never waits less than an
-- earlier one.
pub delay_mono :
    (p : RetryPolicy) (a k value d e : ℕ)
    → delay p (pos a) (pos value) ≡ ok d
    → delay p (pos (k + a)) (pos value) ≡ ok e
    → d ≤ e
unfolding delay
delay_mono p a k value d e h g = ground (
  arith,
  mul_mono (raw_delay p a) (raw_delay p (k + a)) (factor p value) (factor p value)
      (raw_delay_mono p a k) (omega arith),
  mul_mono (raw_delay p a) (raw_delay p (k + a)) unit unit (raw_delay_mono p a k) (omega arith),
)
