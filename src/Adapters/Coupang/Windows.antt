-- ===== src/Adapters/Coupang/Windows.antt =====
-- The statuses and windows that a pull from Coupang asks for.
use arkain.Prelude.{
  ◌≡◌, refl, ap, ◌∙◌, ℕ, suc, ◌+◌, ◌*◌, ◌≤◌, min, Bool, false, Option, none, List, length, All,
  arith, Option-cases, inl, inr,
}
use arkain.Adapters.Cursors.{CursorCodec, encode_cursor, decode_cursor, decode-encode_cursor}
use arkain.Adapters.Transport.{filled, has_some}
use arkain.Adapters.Coupang.{
  OrderCursor, CoupangOrderSheets, next_cursor, max_window_ms, order_statuses,
}
use arkain.Adapters.Sweep.{Position, next}
use arkain.Adapters.Pull.{pull, mapped, pull_ends}

module _ (codec : CursorCodec OrderCursor) where
  -- the cursor that the next page is asked with, which has travelled as a text
  unfoldable pub step : OrderCursor → ℕ × CoupangOrderSheets → Option OrderCursor
  step state (now_ms, parsed) =
      decode_cursor codec (encode_cursor codec (next_cursor state now_ms parsed))

  abbrev position : OrderCursor → Position
  position state = record { axis = state.status_idx; from = state.from }

  -- whether the answer says that there is more at the status
  abbrev pub more : CoupangOrderSheets → Bool
  more parsed = has_some (filled parsed.next_token)

  abbrev Always : OrderCursor → Type 0
  Always state = Unit

  sim_lem :
      (state : OrderCursor) (a : ℕ × CoupangOrderSheets)
      → Always state
      → mapped position (step state a) ≡ next 6 max_window_ms (position state) (a.0, more a.1)
  unfolding step
  sim_lem state (now_ms, parsed) ok =
      ap (mapped position) (decode-encode_cursor codec (next_cursor state now_ms parsed))
      ∙ elim (Option-cases (filled parsed.next_token)) [
        | inl e ↦ unfold next_cursor next in rw e (ground arith)
        | inr (s, e) ↦ unfold next_cursor next in rw e refl
      ]

  -- A call that asks for the orders of a status at a moment: from the cursor's time on, for at most
  -- 31 days and to the time of the call.
  abbrev pub AskedFor : ℕ → ℕ → OrderCursor × ℕ → Type 0
  AskedFor i t (state, now_ms) =
      (state.status_idx ≡ i) × (state.from ≤ t) × (t ≤ min (state.from + max_window_ms) now_ms)

  abbrev pub first : ℕ → OrderCursor
  first since = record { status_idx = 0; from = since; next_token = none }

  -- When no answer says that there is more, and no call is made after `stop`, a pull comes to an end
  -- within six calls for each of the windows of 31 days, one after the other from its beginning,
  -- that reach `stop`.
  pub pull_ends_lem :
      (since stop k : ℕ) (responses : List (ℕ × CoupangOrderSheets))
      → stop ≤ since + suc k * max_window_ms
      → All (λ r. (r.0 ≤ stop) × (more r.1 ≡ false)) responses
      → length order_statuses * suc k ≤ length responses
      → (pull step (first since) responses).1 ≡ none
  pull_ends_lem since stop k responses near short enough =
      pull_ends step 6 max_window_ms position more Always sim_lem (λ _ _ _ _ _. tt) stop k
        (first since) responses tt (omega arith) near short enough
