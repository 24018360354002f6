-- ===== src/Adapters/Naver/Windows.antt =====
-- The windows that a pull from Naver asks for.
use arkain.Prelude.{
  ◌≡◌, refl, ap, ◌∙◌, ℕ, suc, ◌+◌, ◌*◌, ◌≤◌, min, Bool, false, Option, none, List, length, All,
  arith, Option-cases, inl, inr,
}
use arkain.Adapters.Cursors.{CursorCodec, encode_cursor, decode_cursor, decode-encode_cursor}
use arkain.Adapters.Transport.{filled, has_some}
use arkain.Adapters.Naver.{OrderCursor, LastChangedStatuses, next_cursor, max_window_ms}
use arkain.Adapters.Sweep.{Position, next}
use arkain.Adapters.Pull.{pull, mapped, pull_ends}

module _ (codec : CursorCodec OrderCursor) where
  -- the cursor that the next page is asked with, which has travelled as a text
  unfoldable pub step : OrderCursor → ℕ × LastChangedStatuses → Option OrderCursor
  step state (now_ms, statuses) =
      decode_cursor codec (encode_cursor codec (next_cursor state now_ms statuses))

  abbrev position : OrderCursor → Position
  position state = record { axis = 0; from = state.from }

  -- whether the answer says that there is more in the window
  abbrev pub more : LastChangedStatuses → Bool
  more statuses = has_some (filled statuses.more_sequence)

  abbrev Always : OrderCursor → Type 0
  Always state = Unit

  sim_lem :
      (state : OrderCursor) (a : ℕ × LastChangedStatuses)
      → Always state
      → mapped position (step state a) ≡ next 1 max_window_ms (position state) (a.0, more a.1)
  unfolding step
  sim_lem state (now_ms, statuses) ok =
      ap (mapped position) (decode-encode_cursor codec (next_cursor state now_ms statuses))
      ∙ elim (Option-cases (filled statuses.more_sequence)) [
        | inl e ↦ unfold next_cursor next in rw e (ground arith)
        | inr (s, e) ↦ unfold next_cursor next in rw e refl
      ]

  -- A window that a moment was asked about in: from the cursor's time on, for at most 24 hours and
  -- to the time of the call.
  abbrev pub AskedFor : ℕ → OrderCursor × ℕ → Type 0
  AskedFor t (state, now_ms) = (state.from ≤ t) × (t ≤ min (state.from + max_window_ms) now_ms)

  abbrev pub first : ℕ → OrderCursor
  first since = record { from = since; more_sequence = none }

  -- When no answer says that there is more, and no call is made after `stop`, a pull comes to an end
  -- within as many calls as there are windows of 24 hours, one after the other from its beginning,
  -- that reach `stop`.
  pub pull_ends_lem :
      (since stop k : ℕ) (responses : List (ℕ × LastChangedStatuses))
      → stop ≤ since + suc k * max_window_ms
      → All (λ r. (r.0 ≤ stop) × (more r.1 ≡ false)) responses
      → suc k ≤ length responses
      → (pull step (first since) responses).1 ≡ none
  pull_ends_lem since stop k responses near short enough =
      pull_ends step 1 max_window_ms position more Always sim_lem (λ _ _ _ _ _. tt) stop k
        (first since) responses tt (omega arith) near short (omega arith)
