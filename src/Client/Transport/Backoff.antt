-- ===== src/Client/Transport/Backoff.antt =====
-- How long a call may sleep between its attempts.
use provider_runpod.Base.{
  ℕ, zero, suc, ◌*◌, ◌^◌, ◌≤◌, ◌<◌, ◌≡◌, refl, true, Option, none, some, String, ℤ, pos, negsuc,
  int_leb, arith,
}
use provider_runpod.Client.Transport.{backoff, atoi, second, after_seconds, int64}

exponential_exact : (k : ℕ) → k < 4 → int64 (2 ^ k * 100000000) ≡ pos (2 ^ k * 100000000)
exponential_exact zero h = refl
exponential_exact (suc zero) h = refl
exponential_exact (suc (suc zero)) h = refl
exponential_exact (suc (suc (suc zero))) h = refl
exponential_exact (suc (suc (suc (suc k)))) h = absurd (omega arith)

exponential_le : (k : ℕ) → k < 4 → int_leb (int64 (2 ^ k * 100000000)) (pos 10000000000) ≡ true
exponential_le zero h = refl
exponential_le (suc zero) h = refl
exponential_le (suc (suc zero)) h = refl
exponential_le (suc (suc (suc zero))) h = refl
exponential_le (suc (suc (suc (suc k)))) h = absurd (omega arith)

after_seconds_le :
    (k : ℕ) (o : Option ℤ) → k < 4 → int_leb (after_seconds k o) (pos 10000000000) ≡ true
after_seconds_le k none h = exponential_le k h
after_seconds_le k (some (pos zero)) h = exponential_le k h
after_seconds_le k (some (pos (suc n))) h = ground arith
after_seconds_le k (some (negsuc n)) h = exponential_le k h

after_seconds_default :
    (k : ℕ) (o : Option ℤ)
    → k < 4
    → ((n : ℕ) → o ≡ some (pos (suc n)) → ⊥)
    → after_seconds k o ≡ pos (2 ^ k * 100000000)
after_seconds_default k none h d = exponential_exact k h
after_seconds_default k (some (pos zero)) h d = exponential_exact k h
after_seconds_default k (some (pos (suc n))) h d = absurd (d n refl)
after_seconds_default k (some (negsuc n)) h d = exponential_exact k h

after_seconds_small :
    (k n : ℕ) → suc n ≤ 10 → after_seconds k (some (pos (suc n))) ≡ pos (suc n * second)
after_seconds_small k n h = ground arith

-- The sleep after one of the four attempts is at most ten seconds, whatever the server puts into
-- Retry-After. It is the seconds named there if they are 1 to 10, and 100 ms doubled for each earlier
-- attempt if the header holds no positive integer.
pub backoff_bounds :
    (k : ℕ) (retry_after : String)
    → k < 4
    → (int_leb (backoff k retry_after) (pos (10 * second)) ≡ true)
      × ((n : ℕ)
          → atoi retry_after ≡ some (pos (suc n))
          → suc n ≤ 10
          → backoff k retry_after ≡ pos (suc n * second))
      × (((n : ℕ) → atoi retry_after ≡ some (pos (suc n)) → ⊥)
          → backoff k retry_after ≡ pos (2 ^ k * 100000000))
unfolding backoff
backoff_bounds k retry_after h = (
  after_seconds_le k (atoi retry_after) h,
  λ n e s. rw e (after_seconds_small k n s),
  λ d. after_seconds_default k (atoi retry_after) h d,
)

-- The product of seconds and nanoseconds is an int64: where a Retry-After wraps it to a negative
-- number, the cap of ten seconds does not apply and the next attempt follows at once.
pub backoff_wraps :
    (k n : ℕ) (retry_after : String)
    → atoi retry_after ≡ some (pos (suc n))
    → 2 ^ 63 ≤ suc n * second
    → suc n * second < 2 ^ 64
    → int_leb (backoff k retry_after) (negsuc 0) ≡ true
unfolding backoff
backoff_wraps k n retry_after e lo hi = rw e (ground arith)
