-- ===== src/Retry/Results.antt =====
-- What every successful call gives, the policy gives.
use arkain.Prelude.{
  ℕ, zero, suc, ◌≡◌, Bool, true, false, ◌||◌, not, ok, throw, Result, ◌==◌, ◌∙◌, refl, ap,
  if◌then◌else◌,
}
use arkain.Retry.{
  RaisedError, undefined_error, RetryOptions, Outcome, is_retryable, after_call, retry_loop,
  with_retry, delay, retry_after_ms,
}

-- What holds of both branches holds of the conditional.
pub either {ℓ k} :
    {X : Type ℓ} (P : X → Type k) (b : Bool) {x y : X} → P x → P y → P (if b then x else y)
either P true h g = h
either P false h g = g

module _ {A W : Type 0} (options : RetryOptions W) (fn : ℕ → W → Result RaisedError A × W)
    (P : A → W → Type 0)
    (gives : (attempt : ℕ) (w after : W) (a : A) → fn attempt w ≡ (ok a, after) → P a after) where
  abbrev Holds : Outcome A W → Type 0
  Holds o = (a : A) → o.result ≡ ok a → P a o.world

  call-Holds :
      (attempt : ℕ) (w : W) (p : Result RaisedError A × W) (next : RaisedError → W → Outcome A W)
      → fn attempt w ≡ p
      → ((e : RaisedError) (after : W) → Holds (next e after))
      → Holds (after_call options fn attempt p next)
  unfolding after_call
  call-Holds attempt w (ok b, after) next called rest =
      λ a e. gives attempt w after a (called ∙ ap (λ r. (r, after)) e)
  call-Holds attempt w (throw err, after) next called rest =
      either Holds (not (is_retryable err) || attempt == options.max_attempts)
        (λ a e. absurd (cc e))
        (rest err (
          options.sleep (delay options fn attempt (retry_after_ms err) (options.random after).0)
            (options.random after).1))

  loop-Holds :
      (left attempt : ℕ) (last : RaisedError) (w : W)
      → Holds (retry_loop options fn left attempt last w)
  unfolding retry_loop
  loop-Holds zero attempt last w = λ a e. absurd (cc e)
  loop-Holds (suc left) attempt last w =
      call-Holds attempt w (fn attempt w)
        (λ e after. retry_loop options fn left (suc attempt) e after) refl
        (λ e after. loop-Holds left (suc attempt) e after)

  -- What holds after every call that succeeds holds after the policy, where it succeeds.
  pub with_retry-Holds :
      (w : W) (a : A)
      → (with_retry options fn w).result ≡ ok a
      → P a (with_retry options fn w).world
  unfolding with_retry
  with_retry-Holds w = loop-Holds options.max_attempts 1 undefined_error w
