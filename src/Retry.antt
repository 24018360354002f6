-- ===== src/Retry.antt =====
-- src/integrations/retry.ts: the one retry policy of the marketplace clients. The call that is
-- retried, the source of randomness and the sleep act on a world `W`. `random` gives a fraction
-- r / q of 1, so delays are counted in units of 1 / 2q of a millisecond, in which the source's
-- numbers are whole. The trace lists the calls and the sleeps in their order.
pub mod Bounds
pub mod Runs
pub mod Success
pub mod Results
mod Examples
use arkain.Prelude.{
  ℕ, zero, suc, ◌+◌, ◌-◌, ◌*◌, ◌^◌, min, Bool, true, false, ◌||◌, not, Option, none, some, List, [],
  ◌∷◌, Result, ok, throw, if◌then◌else◌, ◌==◌, ◌++◌,
}
use arkain.Marketplace.Types.{MarketplaceError}

-- What a call may throw.
pub data RaisedError : Type 0 where
  marketplace_error : MarketplaceError → RaisedError
  other_error : RaisedError
  undefined_error : RaisedError

pub data Event : Type 0 where
  called : ℕ → Event
  slept : ℕ → Event

-- `maxAttempts`, `baseDelayMs`, `maxDelayMs` after their defaults, and `random`
pub record RetryOptions (W : Type 0) : Type 0 where
  pub max_attempts : ℕ
  pub base_delay_ms : ℕ
  pub max_delay_ms : ℕ
  pub sleep : ℕ → W → W
  -- the denominator q, and the draw of a numerator
  pub resolution : ℕ
  pub random : W → ℕ × W

pub record Outcome (A W : Type 0) : Type 0 where
  pub result : Result RaisedError A
  pub world : W
  pub trace : List Event

unfoldable pub is_retryable : RaisedError → Bool
is_retryable (marketplace_error e) = e.retryable
is_retryable other_error = false
is_retryable undefined_error = false

abbrev pub retry_after_ms : RaisedError → Option ℕ
retry_after_ms (marketplace_error e) = e.retry_after_ms
retry_after_ms other_error = none
retry_after_ms undefined_error = none

module _ {A W : Type 0} (options : RetryOptions W) (fn : ℕ → W → Result RaisedError A × W) where
  abbrev pub unit : ℕ
  unit = 2 * options.resolution

  unfoldable pub backoff : ℕ → ℕ
  backoff attempt = min options.max_delay_ms (options.base_delay_ms * 2 ^ (attempt - 1))

  unfoldable pub delay : ℕ → Option ℕ → ℕ → ℕ
  unfolding backoff
  delay attempt (some server_delay) r = min (options.max_delay_ms * unit) (server_delay * unit)
  delay attempt none r =
      min (options.max_delay_ms * unit) (backoff attempt * (options.resolution + r))

  abbrev pub record_events : List Event → Outcome A W → Outcome A W
  record_events events o = record o { trace = events ++ o.trace }

  -- the wait after a retryable error; `next` is the loop's next iteration
  abbrev pub pause : ℕ → RaisedError → W → (RaisedError → W → Outcome A W) → Outcome A W
  pause attempt error world next =
      let drawn = options.random world in
      let delay_ms = delay attempt (retry_after_ms error) drawn.0 in
      record_events (called attempt ∷ slept delay_ms ∷ [])
        (next error (options.sleep delay_ms drawn.1))

  -- the loop's body, after the call
  unfoldable pub after_call :
      ℕ → Result RaisedError A × W → (RaisedError → W → Outcome A W) → Outcome A W
  after_call attempt (ok a, world) next = record {
    result = ok a;
    world = world;
    trace = called attempt ∷ [];
  }
  after_call attempt (throw error, world) next =
      if not (is_retryable error) || attempt == options.max_attempts
      then record { result = throw error; world = world; trace = called attempt ∷ [] }
      else pause attempt error world next

  -- the loop, with the iterations that are left, from `attempt` on
  unfoldable pub retry_loop : ℕ → ℕ → RaisedError → W → Outcome A W
  unfolding after_call
  retry_loop zero attempt last_error world = record {
    result = throw last_error;
    world = world;
    trace = [];
  }
  retry_loop (suc left) attempt last_error world =
      after_call attempt (fn attempt world)
        (λ error next_world. retry_loop left (suc attempt) error next_world)

  unfoldable pub with_retry : W → Outcome A W
  unfolding retry_loop
  with_retry world = retry_loop options.max_attempts 1 undefined_error world
