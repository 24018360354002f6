-- ===== src/Retry/Examples.antt =====
-- The theorems on the retry policy at work, on a service that is down for its first two calls.
use arkain.Prelude.{
  ℕ, ◌+◌, ◌<◌, Result, ok, throw, true, none, some, refl, arith, ltb, if◌then◌else◌,
}
use arkain.Marketplace.Types.{MarketplaceError, naver_smartstore}
use arkain.Retry.{RaisedError, marketplace_error, RetryOptions, is_retryable, with_retry}
use arkain.Retry.Bounds.{IsBounded}
use arkain.Retry.Runs.{IsRun, with_retry-IsRun}
use arkain.Retry.Success.{FailsRetryably, Gives, with_retry-Gives}

abbrev busy : MarketplaceError
busy = record {
  message = "busy";
  marketplace = naver_smartstore;
  retryable = true;
  status = some 429;
  retry_after_ms = some 700;
  code = none;
}

-- The world counts the calls.
abbrev service : ℕ → ℕ → Result RaisedError ℕ × ℕ
service attempt world =
    if ltb attempt 3 then (throw (marketplace_error busy), world + 1) else (ok 42, world + 1)

abbrev five_attempts : RetryOptions ℕ
five_attempts = record {
  max_attempts = 5;
  base_delay_ms = 500;
  max_delay_ms = 20000;
  sleep = λ d world. world;
  resolution = 10;
  random = λ world. (5, world);
}

with_retry-IsRun_example :
    IsRun five_attempts service 1 0 (with_retry five_attempts service 0)
    × IsBounded five_attempts service 5 (with_retry five_attempts service 0)
with_retry-IsRun_example = with_retry-IsRun five_attempts service 0 (omega arith)

service_fails : (i : ℕ) → i < 3 → FailsRetryably five_attempts service i
unfolding is_retryable
service_fails i short w = (marketplace_error busy, w + 1, ground arith, refl)

with_retry-Gives_example : Gives five_attempts service 42 3 (with_retry five_attempts service 0)
with_retry-Gives_example =
    with_retry-Gives five_attempts service 2 42 0 (omega arith)
      (λ i low high. service_fails i (omega arith)) (λ w. (w + 1, refl))
