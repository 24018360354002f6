-- ===== src/Retry/Runs.antt =====
-- What the policy does, call by call, and how long it waits.
use arkain.Prelude.{
  ℕ, zero, suc, ◌+◌, ◌≤◌, ◌<◌, ◌≡◌, refl, ◌⊎◌, inl, inr, true, false, List, [], ◌∷◌, Result, ok,
  throw, if◌then◌else◌, ◌==◌, arith, Bool-cases, eq-true, eq-false,
}
use arkain.Retry.{
  RaisedError, marketplace_error, other_error, undefined_error, Event, called, slept, RetryOptions,
  Outcome, is_retryable, pause, after_call, retry_loop, with_retry, retry_after_ms,
}
use arkain.Retry.Bounds.{IsBounded, longest, delay-≤, with_retry-IsBounded}

-- An error of a marketplace that it marks as worth a retry; any other error.
abbrev pub Passing : RaisedError → Type 0
Passing (marketplace_error e) = e.retryable ≡ true
Passing other_error = ⊥
Passing undefined_error = ⊥

abbrev pub Lasting : RaisedError → Type 0
Lasting (marketplace_error e) = e.retryable ≡ false
Lasting other_error = Unit
Lasting undefined_error = Unit

is_retryable-Passing : (e : RaisedError) → is_retryable e ≡ true → Passing e
unfolding is_retryable
is_retryable-Passing (marketplace_error e) h = h
is_retryable-Passing other_error h = absurd (cc)
is_retryable-Passing undefined_error h = absurd (cc)

is_retryable-Lasting : (e : RaisedError) → is_retryable e ≡ false → Lasting e
unfolding is_retryable
is_retryable-Lasting (marketplace_error e) h = h
is_retryable-Lasting other_error h = tt
is_retryable-Lasting undefined_error h = tt

module _ {A W : Type 0} (options : RetryOptions W) (fn : ℕ → W → Result RaisedError A × W) where
  -- A run from the call with a number on, in a world: its events in their order, its result and the
  -- world that it leaves.
  pub data Run : ℕ → W → List Event → Result RaisedError A → W → Type 0 where
    -- the call gives a value, and nothing follows
    gives :
        {n : ℕ} {w after : W} {a : A}
        → fn n w ≡ (ok a, after)
        → Run n w (called n ∷ []) (ok a) after
    -- the call throws a lasting error, or is the last that is allowed, and nothing follows
    ends :
        {n : ℕ} {w after : W} {e : RaisedError}
        → fn n w ≡ (throw e, after)
        → Lasting e ⊎ (n ≡ options.max_attempts)
        → Run n w (called n ∷ []) (throw e) after
    -- the call throws a passing error, a sleep follows it, and then the next call
    waits :
        {n d : ℕ} {w after last : W} {e : RaisedError} {events : List Event}
        {r : Result RaisedError A}
        → fn n w ≡ (throw e, after)
        → Passing e
        → n < options.max_attempts
        → d ≤ longest options fn
        → Run (suc n) (options.sleep d (options.random after).1) events r last
        → Run n w (called n ∷ slept d ∷ events) r last

  abbrev pub IsRun : ℕ → W → Outcome A W → Type 0
  IsRun n w o = Run n w o.trace o.result o.world

  after_call-IsRun :
      (left n : ℕ) (w : W) (r : Result RaisedError A × W) (next : RaisedError → W → Outcome A W)
      → fn n w ≡ r
      → n + left ≡ options.max_attempts
      → ((l : ℕ)
          → left ≡ suc l
          → (e : RaisedError) (after : W) → IsRun (suc n) after (next e after))
      → IsRun n w (after_call options fn n r next)
  unfolding after_call
  after_call-IsRun left n w (ok a, after) next call total further = gives call
  after_call-IsRun left n w (throw e, after) next call total further =
      elim (Bool-cases (is_retryable e)) [
        | inr final ↦ rw final (ends call (inl (is_retryable-Lasting e final)))
        | inl passing ↦ rw passing (waiting left passing total further)
      ]
    where
      waiting :
          (left : ℕ)
          → is_retryable e ≡ true
          → n + left ≡ options.max_attempts
          → ((l : ℕ)
              → left ≡ suc l
              → (e' : RaisedError) (after' : W) → IsRun (suc n) after' (next e' after'))
          → IsRun n w (
              if n == options.max_attempts
              then record { result = throw e; world = after; trace = called n ∷ [] }
              else pause options fn n e after next)
      waiting zero passing total further =
          rw (eq-true n options.max_attempts (omega arith)) (ends call (inr (omega arith)))
      waiting (suc l) passing total further =
          rw (eq-false n options.max_attempts (λ p. omega arith)) (
            waits call (is_retryable-Passing e passing) (omega arith)
              (delay-≤ options fn n (retry_after_ms e) _) (further l refl e _))

  retry_loop-IsRun :
      (left n : ℕ) (last_error : RaisedError) (w : W)
      → n + left ≡ options.max_attempts
      → IsRun n w (retry_loop options fn (suc left) n last_error w)
  unfolding retry_loop
  retry_loop-IsRun zero n last_error w total =
      after_call-IsRun 0 n w (fn n w) (λ e after. retry_loop options fn 0 (suc n) e after) refl
        total (λ l p. absurd (omega arith))
  retry_loop-IsRun (suc m) n last_error w total =
      after_call-IsRun (suc m) n w (fn n w)
        (λ e after. retry_loop options fn (suc m) (suc n) e after) refl total
        (λ l p e after. retry_loop-IsRun m (suc n) e after (omega (arith, total)))

  from_first :
      (attempts : ℕ) (w : W)
      → attempts ≡ options.max_attempts
      → 1 ≤ attempts
      → IsRun 1 w (retry_loop options fn attempts 1 undefined_error w)
  from_first zero w total some_attempt = absurd (omega arith)
  from_first (suc left) w total some_attempt =
      retry_loop-IsRun left 1 undefined_error w (omega (arith, total))

-- With at least one attempt allowed, whatever is called and whatever the draws, the policy makes a
-- run from its first call on: a call that gives a value ends it; so does one that throws an error
-- not marked as retryable, and the last that `max_attempts` allows; a retryable error of an earlier
-- call is followed by one sleep of at most the longest delay and by the next call, in the world that
-- the draw and the sleep leave. So there is a call, there are at most `max_attempts`, there is one
-- sleep fewer than calls, and all the sleeps together last at most the longest delay for each.
pub with_retry-IsRun :
    {A W : Type 0} (options : RetryOptions W) (fn : ℕ → W → Result RaisedError A × W) (world : W)
    → 1 ≤ options.max_attempts
    → IsRun options fn 1 world (with_retry options fn world)
      × IsBounded options fn options.max_attempts (with_retry options fn world)
unfolding with_retry
with_retry-IsRun options fn world some_attempt = (
  from_first options fn options.max_attempts world refl some_attempt,
  with_retry-IsBounded options fn world some_attempt,
)
