-- ===== src/Retry/Success.antt =====
-- The policy reaches the first call that succeeds.
use arkain.Prelude.{
  ℕ, zero, suc, ◌+◌, ◌≤◌, ◌<◌, ◌≡◌, refl, ap, subst, true, ok, throw, arith, Result, eq-false,
}
use arkain.Retry.{
  RaisedError, undefined_error, RetryOptions, Outcome, is_retryable, after_call, retry_loop,
  with_retry,
}
use arkain.Retry.Bounds.{calls}

module _ {A W : Type 0} (options : RetryOptions W) (fn : ℕ → W → Result RaisedError A × W) where
  -- The attempt fails in every world, with an error that is worth a retry.
  abbrev pub FailsRetryably : ℕ → Type 0
  FailsRetryably attempt =
      (w : W)
      → (e : RaisedError) × (after : W) × (fn attempt w ≡ (throw e, after))
        × (is_retryable e ≡ true)

  abbrev pub Succeeds : ℕ → A → Type 0
  Succeeds attempt a = (w : W) → (after : W) × (fn attempt w ≡ (ok a, after))

  -- The outcome is the value `a` after `n` calls.
  abbrev pub Gives : A → ℕ → Outcome A W → Type 0
  Gives a n o = (o.result ≡ ok a) × (calls o.trace ≡ n)

  loop-Gives :
      (k left attempt : ℕ) (a : A) (last_error : RaisedError) (w : W)
      → attempt + left ≡ options.max_attempts + 1
      → k < left
      → ((i : ℕ) → attempt ≤ i → i < attempt + k → FailsRetryably i)
      → Succeeds (attempt + k) a
      → Gives a (suc k) (retry_loop options fn left attempt last_error w)
  unfolding retry_loop after_call
  loop-Gives k zero attempt a last_error w total short fails succeeds = absurd (omega arith)
  loop-Gives zero (suc left) attempt a last_error w total short fails succeeds =
      let (after, e) = subst (λ i. Succeeds i a) {y = attempt} (omega arith) succeeds w in
      rw e (refl, refl)
  loop-Gives (suc k) (suc left) attempt a last_error w total short fails succeeds =
      let (err, after, e, retryable) = fails attempt (omega arith) (omega arith) w in
      let (result, number) =
        loop-Gives k left (suc attempt) a err _ (omega arith) (omega arith)
          (λ i low high. fails i (omega arith) (omega arith))
          (subst (λ i. Succeeds i a) {y = suc attempt + k} (omega arith) succeeds) in
      rw (e, retryable, eq-false attempt options.max_attempts (λ p. omega arith))
        (result, ap suc number)

-- When the first k attempts fail with errors worth a retry and the attempt after them succeeds, and
-- there are more than k attempts, then the policy returns that value after exactly k + 1 calls,
-- whatever the draws, the delays that the server asked for and the sleeps.
pub with_retry-Gives :
    {A W : Type 0} (options : RetryOptions W) (fn : ℕ → W → Result RaisedError A × W) (k : ℕ)
    (a : A) (w : W)
    → k < options.max_attempts
    → ((i : ℕ) → 1 ≤ i → i < 1 + k → FailsRetryably options fn i)
    → Succeeds options fn (1 + k) a
    → Gives options fn a (suc k) (with_retry options fn w)
unfolding with_retry
with_retry-Gives options fn k a w short fails succeeds =
    loop-Gives options fn k options.max_attempts 1 a undefined_error w (omega arith) short fails
      succeeds
