-- ===== src/Throttle/Limiter.antt =====
-- src/auth/rateLimiter.ts
pub mod Window
use arkain.Prelude.{
  ℕ, ◌+◌, String, Bool, true, false, Option, none, some, List, [], ◌∷◌, ◌++◌, if◌then◌else◌, keep,
  length, ltb, leb, String-discrete, holds, ◌&&◌,
}
use arkain.Prelude.Dict.{lookup, insert}

abbrev pub Hits : Type 0
Hits = List (String × List ℕ)

-- A call of `consume`, with what its two calls of `now()` return.
pub record Consume : Type 0 where
  pub key : String
  pub asked_at : ℕ
  pub pushed_at : ℕ

abbrev pub or_empty : Option (List ℕ) → List ℕ
or_empty none = []
or_empty (some times) = times

module _ (limit window_ms : ℕ) where
  -- `(hits.get(key) ?? []).filter((t) => t > windowStart)`
  unfoldable pub recent : Hits → Consume → List ℕ
  recent hits call =
      keep (λ t. ltb call.asked_at (t + window_ms))
        (or_empty (lookup String-discrete call.key hits))

  -- whether the call is let through, and the map after it
  unfoldable pub consume : Hits → Consume → Bool × Hits
  unfolding recent
  consume hits call =
      if leb limit (length (recent hits call))
      then (false, insert String-discrete call.key (recent hits call) hits)
      else (true, insert String-discrete call.key (recent hits call ++ call.pushed_at ∷ []) hits)

  -- The times of the calls of `key` that are let through, the last one first, put before `past`.
  unfoldable pub let_through : String → List Consume → Hits → List ℕ → List ℕ
  unfolding consume
  let_through key [] hits past = past
  let_through key (call ∷ calls) hits past =
      let (passed, after) = consume hits call in
      let_through key calls after
        (if passed && holds (String-discrete call.key key) then call.pushed_at ∷ past else past)
