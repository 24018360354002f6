-- ===== src/Retry/Bounds.antt =====
-- How often the policy calls, and how long it waits.
use arkain.Prelude.{
  ℕ, zero, suc, ◌+◌, ◌*◌, ◌≤◌, ◌≡◌, refl, ap, subst, ◌⊎◌, inl, inr, false, Option, none, some, List,
  [], ◌∷◌, Result, ok, throw, if◌then◌else◌, ◌==◌, arith, Bool-cases, eq-true, eq-false,
}
use arkain.Retry.{
  RaisedError, undefined_error, Event, called, slept, RetryOptions, Outcome, is_retryable, delay,
  pause, after_call, retry_loop, with_retry, retry_after_ms,
}

-- The calls of a trace, and its sleeps.
abbrev pub calls : List Event → ℕ
calls [] = 0
calls (called _ ∷ events) = suc (calls events)
calls (slept _ ∷ events) = calls events

abbrev pub sleeps : List Event → ℕ
sleeps [] = 0
sleeps (called _ ∷ events) = sleeps events
sleeps (slept _ ∷ events) = suc (sleeps events)

-- The time slept in all.
abbrev pub slept_in_all : List Event → ℕ
slept_in_all [] = 0
slept_in_all (called _ ∷ events) = slept_in_all events
slept_in_all (slept d ∷ events) = d + slept_in_all events

-- What the outcome says of the last call: a value or an error that is not retryable ends the loop
-- at once, and a retryable error is thrown only after all the calls.
abbrev pub Ends : {A : Type 0} → ℕ → ℕ → Result RaisedError A → Type 0
Ends made most (ok a) = made ≤ most
Ends made most (throw e) = (is_retryable e ≡ false) ⊎ (made ≡ most)

module _ {A W : Type 0} (options : RetryOptions W) (fn : ℕ → W → Result RaisedError A × W) where
  abbrev pub longest : ℕ
  longest = options.max_delay_ms * (2 * options.resolution)

  pub delay-≤ : (attempt : ℕ) (hint : Option ℕ) (r : ℕ) → delay options fn attempt hint r ≤ longest
  unfolding delay
  delay-≤ attempt none r = omega arith
  delay-≤ attempt (some d) r = omega arith

  -- What holds of an outcome of at most `most` calls.
  pub record IsBounded (most : ℕ) (o : Outcome A W) : Type 0 where
    pub some_call : 1 ≤ calls o.trace
    pub most_calls : calls o.trace ≤ most
    pub one_fewer_sleeps : suc (sleeps o.trace) ≡ calls o.trace
    pub ends : Ends (calls o.trace) most o.result
    -- the last call has no sleep after it
    pub waits : slept_in_all o.trace + longest ≤ calls o.trace * longest

  one_call :
      (attempt : ℕ) (r : Result RaisedError A) (world : W) (left : ℕ)
      → Ends 1 (suc left) r
      → IsBounded (suc left) (record { result = r; world = world; trace = called attempt ∷ [] })
  one_call attempt r world left ends = record {
    some_call = omega arith;
    most_calls = omega arith;
    one_fewer_sleeps = refl;
    ends = ends;
    waits = omega arith;
  }

  Ends-suc :
      (made most : ℕ) (r : Result RaisedError A) → Ends made most r → Ends (suc made) (suc most) r
  Ends-suc made most (ok a) h = omega arith
  Ends-suc made most (throw e) (inl n) = inl n
  Ends-suc made most (throw e) (inr p) = inr (ap suc p)

  -- One more call and one more sleep before a bounded outcome.
  one_more :
      (attempt d most : ℕ) (o : Outcome A W)
      → d ≤ longest
      → IsBounded most o
      → IsBounded (suc most) (record o { trace = called attempt ∷ slept d ∷ o.trace })
  one_more attempt d most o short h = record {
    some_call = omega arith;
    most_calls = omega (arith, h.most_calls);
    one_fewer_sleeps = ap suc h.one_fewer_sleeps;
    ends = Ends-suc (calls o.trace) most o.result h.ends;
    waits = omega (arith, h.waits);
  }

  after_call-IsBounded :
      (left attempt : ℕ) (r : Result RaisedError A × W) (next : RaisedError → W → Outcome A W)
      → attempt + left ≡ options.max_attempts
      → ((l : ℕ) → left ≡ suc l → (e : RaisedError) (w : W) → IsBounded (suc l) (next e w))
      → IsBounded (suc left) (after_call options fn attempt r next)
  unfolding after_call
  after_call-IsBounded left attempt (ok a, world) next h further =
      one_call attempt (ok a) world left (omega arith)
  after_call-IsBounded left attempt (throw e, world) next h further =
      elim (Bool-cases (is_retryable e)) [
        | inr final ↦ rw final (one_call attempt (throw e) world left (inl final))
        | inl retryable ↦ rw retryable (waiting left h further)
      ]
    where
      waiting :
          (left : ℕ)
          → attempt + left ≡ options.max_attempts
          → ((l : ℕ) → left ≡ suc l → (e : RaisedError) (w : W) → IsBounded (suc l) (next e w))
          → IsBounded (suc left) (
              if attempt == options.max_attempts
              then record { result = throw e; world = world; trace = called attempt ∷ [] }
              else pause options fn attempt e world next)
      waiting zero h further =
          rw (eq-true attempt options.max_attempts (omega arith))
            (one_call attempt (throw e) world 0 (inr refl))
      waiting (suc l) h further =
          rw (eq-false attempt options.max_attempts (λ p. omega arith)) (
            one_more attempt _ (suc l) _ (delay-≤ attempt (retry_after_ms e) _)
              (further l refl e _))

  retry_loop-IsBounded :
      (left attempt : ℕ) (last_error : RaisedError) (world : W)
      → attempt + left ≡ options.max_attempts
      → IsBounded (suc left) (retry_loop options fn (suc left) attempt last_error world)
  unfolding retry_loop
  retry_loop-IsBounded zero attempt last_error world h =
      after_call-IsBounded 0 attempt (fn attempt world)
        (λ e w. retry_loop options fn 0 (suc attempt) e w) h (λ l p. absurd (omega arith))
  retry_loop-IsBounded (suc m) attempt last_error world h =
      after_call-IsBounded (suc m) attempt (fn attempt world)
        (λ e w. retry_loop options fn (suc m) (suc attempt) e w) h
        (λ l p e w.
          subst (λ k. IsBounded (suc k) (retry_loop options fn (suc m) (suc attempt) e w))
            (omega arith) (retry_loop-IsBounded m (suc attempt) e w (omega arith)))

-- With at least one attempt allowed, the outcome is bounded.
pub with_retry-IsBounded :
    {A W : Type 0} (options : RetryOptions W) (fn : ℕ → W → Result RaisedError A × W) (world : W)
    → 1 ≤ options.max_attempts
    → IsBounded options fn options.max_attempts (with_retry options fn world)
unfolding with_retry
with_retry-IsBounded options fn world some_attempt =
    with_attempts options.max_attempts refl some_attempt
  where
    with_attempts :
        (n : ℕ)
        → n ≡ options.max_attempts
        → 1 ≤ n
        → IsBounded options fn n (retry_loop options fn n 1 undefined_error world)
    with_attempts zero p h = elim h [ ]
    with_attempts (suc n) p h =
        retry_loop-IsBounded options fn n 1 undefined_error world (omega arith)
