-- ===== src/Throttle/Limiter/Window.antt =====
-- No window of time sees more than the limit of calls with one key.
use arkain.Prelude.{
  ℕ, ◌+◌, ◌≤◌, ◌<◌, String, ◌≡◌, refl, ap, ◌≢◌, Bool, true, false, List, [], ◌∷◌, ◌++◌,
  if◌then◌else◌, keep, length, ltb, leb, String-discrete, holds, ◌&&◌, arith, All, Bool-cases, inl,
  inr, if_pos, if_neg, dec_le, holds-yes, holds-no,
}
use arkain.Prelude.Dict.{lookup, insert, lookup-insert}
use arkain.Throttle.Limiter.{Hits, Consume, or_empty, recent, consume, let_through}

-- The clock does not go back: each reading is at or after the one before.
abbrev pub ClockFrom : ℕ → List Consume → Type 0
ClockFrom now [] = Unit
ClockFrom now (call ∷ calls) =
    (now ≤ call.asked_at) × (call.asked_at ≤ call.pushed_at) × ClockFrom call.pushed_at calls

-- How many of the times are after `start`, and how many after it and at most `window_ms` later.
abbrev pub after : ℕ → List ℕ → ℕ
after start times = length (keep (ltb start) times)

abbrev pub in_window : ℕ → ℕ → List ℕ → ℕ
in_window window_ms start times =
    length (keep (λ t. ltb start t && leb t (start + window_ms)) times)

in_window-≤ :
    (window_ms start : ℕ) (times : List ℕ) → in_window window_ms start times ≤ after start times
in_window-≤ window_ms start [] = omega arith
in_window-≤ window_ms start (t ∷ times) = ground (arith, in_window-≤ window_ms start times)

after-≤ : (start : ℕ) (times : List ℕ) → after start times ≤ length times
after-≤ start [] = omega arith
after-≤ start (t ∷ times) = ground (arith, after-≤ start times)

after-append : (start t : ℕ) (times : List ℕ) → after start times ≤ after start (times ++ t ∷ [])
after-append start t [] = omega arith
after-append start t (u ∷ times) = ground (arith, after-append start t times)

after-append_last :
    (start t : ℕ) (times : List ℕ)
    → start < t
    → after start (times ++ t ∷ []) ≡ 1 + after start times
after-append_last start t [] h = ground arith
after-append_last start t (u ∷ times) h = ground (arith, after-append_last start t times h)

module _ (limit window_ms : ℕ) where
  -- What holds at time `now` of the times kept for a key and of all those let through so far.
  record Limited (now : ℕ) (times past : List ℕ) : Type 0 where
    none_later : All (λ t. t ≤ now) past
    kept : (start : ℕ) → now ≤ start + window_ms → after start past ≤ after start times
    limited : (start : ℕ) → in_window window_ms start past ≤ limit

  abbrev recent_of : ℕ → List ℕ → List ℕ
  recent_of asked times = keep (λ t. ltb asked (t + window_ms)) times

  after-recent_of :
      (asked start : ℕ) (times : List ℕ)
      → asked ≤ start + window_ms
      → after start (recent_of asked times) ≡ after start times
  after-recent_of asked start [] h = refl
  after-recent_of asked start (t ∷ times) h = ground (arith, after-recent_of asked start times h)

  All-later :
      (now later : ℕ) (past : List ℕ)
      → now ≤ later
      → All (λ t. t ≤ now) past
      → All (λ t. t ≤ later) past
  All-later now later [] h a = tt
  All-later now later (t ∷ past) h a = (omega (arith, a.0), All-later now later past h a.1)

  later-Limited :
      (now later : ℕ) (times past : List ℕ)
      → now ≤ later
      → Limited now times past
      → Limited later times past
  later-Limited now later times past h l = record {
    none_later = All-later now later past h l.none_later;
    kept = λ start inside. l.kept start (omega arith);
    limited = l.limited;
  }

  refused-Limited :
      (now asked pushed : ℕ) (times past : List ℕ)
      → now ≤ asked
      → asked ≤ pushed
      → Limited now times past
      → Limited pushed (recent_of asked times) past
  refused-Limited now asked pushed times past h k l = record {
    none_later = All-later now pushed past (omega arith) l.none_later;
    kept = λ start inside.
        omega (arith, l.kept start (omega arith), after-recent_of asked start times (omega arith));
    limited = l.limited;
  }

  passed-Limited :
      (now asked pushed : ℕ) (times past : List ℕ)
      → now ≤ asked
      → asked ≤ pushed
      → length (recent_of asked times) < limit
      → Limited now times past
      → Limited pushed (recent_of asked times ++ pushed ∷ []) (pushed ∷ past)
  passed-Limited now asked pushed times past h k few l = record {
    none_later = (omega arith, All-later now pushed past (omega arith) l.none_later);
    kept = keeps;
    limited = stays;
  }
    where
      keeps :
          (start : ℕ)
          → pushed ≤ start + window_ms
          → after start (pushed ∷ past) ≤ after start (recent_of asked times ++ pushed ∷ [])
      keeps start inside = ground (
        arith,
        l.kept start (omega arith),
        after-recent_of asked start times (omega arith),
        after-append start pushed (recent_of asked times),
        after-append_last start pushed (recent_of asked times),
      )

      stays : (start : ℕ) → in_window window_ms start (pushed ∷ past) ≤ limit
      stays start = elim (dec_le pushed (start + window_ms)) [
        | yes inside ↦ ground (
          arith,
          l.limited start,
          in_window-≤ window_ms start past,
          l.kept start (omega arith),
          after-recent_of asked start times (omega arith),
          after-≤ start (recent_of asked times),
        )
        | no outside ↦ ground (arith, l.limited start)
      ]

  under : (n : ℕ) → leb limit n ≡ false → n < limit
  under n h = ground arith

  nothing_yet : (times : List ℕ) → Limited 0 times []
  nothing_yet times = record {
    none_later = tt;
    kept = λ start inside. omega arith;
    limited = λ start. omega arith;
  }

  module _ (key : String) where
    stored : Hits → List ℕ
    stored hits = or_empty (lookup String-discrete key hits)

    passed_times : Consume → Bool → List ℕ → List ℕ
    passed_times call passed past =
        if passed && holds (String-discrete call.key key) then call.pushed_at ∷ past else past

    stored-insert_same :
        (k : String) (v : List ℕ) (hits : Hits)
        → k ≡ key
        → stored (insert String-discrete k v hits) ≡ v
    unfolding stored
    stored-insert_same k v hits p =
        rw (lookup-insert String-discrete k key v hits) (rw (if_pos _ p))

    stored-insert_other :
        (k : String) (v : List ℕ) (hits : Hits)
        → ◌≢◌ {A = String} k key
        → stored (insert String-discrete k v hits) ≡ stored hits
    unfolding stored
    stored-insert_other k v hits n =
        rw (lookup-insert String-discrete k key v hits) (rw (if_neg _ n))

    passed_times-other :
        (call : Consume) (passed : Bool) (past : List ℕ)
        → ◌≢◌ {A = String} call.key key
        → passed_times call passed past ≡ past
    unfolding passed_times
    passed_times-other call true past n = rw (holds-no (String-discrete call.key key) n)
    passed_times-other call false past n = refl

    passed_times-same :
        (call : Consume) (past : List ℕ)
        → call.key ≡ key
        → passed_times call true past ≡ call.pushed_at ∷ past
    unfolding passed_times
    passed_times-same call past p = rw (holds-yes (String-discrete call.key key) p)

    passed_times-refused : (call : Consume) (past : List ℕ) → passed_times call false past ≡ past
    unfolding passed_times
    passed_times-refused call past = refl

    consume-other :
        (call : Consume) (hits : Hits)
        → ◌≢◌ {A = String} call.key key
        → stored (consume limit window_ms hits call).1 ≡ stored hits
    unfolding consume
    consume-other call hits n =
        elim (Bool-cases (leb limit (length (recent limit window_ms hits call)))) [
          | inl full ↦ rw full (stored-insert_other call.key _ hits n)
          | inr free ↦ rw free (stored-insert_other call.key _ hits n)
        ]

    consume-full :
        (call : Consume) (hits : Hits)
        → leb limit (length (recent limit window_ms hits call)) ≡ true
        → consume limit window_ms hits call
          ≡ (false, insert String-discrete call.key (recent limit window_ms hits call) hits)
    unfolding consume
    consume-full call hits full = rw full

    consume-free :
        (call : Consume) (hits : Hits)
        → leb limit (length (recent limit window_ms hits call)) ≡ false
        → consume limit window_ms hits call ≡ (
          true,
          insert String-discrete call.key
              (recent limit window_ms hits call ++ call.pushed_at ∷ [])
              hits,
        )
    unfolding consume
    consume-free call hits free = rw free

    recent-same :
        (call : Consume) (hits : Hits)
        → call.key ≡ key
        → recent limit window_ms hits call ≡ recent_of call.asked_at (stored hits)
    unfolding recent stored
    recent-same call hits p =
        ap (λ k. recent_of call.asked_at (or_empty (lookup String-discrete k hits))) p

    consume-Limited :
        (now : ℕ) (call : Consume) (hits : Hits) (past : List ℕ)
        → now ≤ call.asked_at
        → call.asked_at ≤ call.pushed_at
        → Limited now (stored hits) past
        → Limited call.pushed_at
            (stored (consume limit window_ms hits call).1)
            (passed_times call (consume limit window_ms hits call).0 past)
    consume-Limited now call hits past h k l = elim (String-discrete call.key key) [
      | no n ↦
          rw
            (
              consume-other call hits n,
              passed_times-other call (consume limit window_ms hits call).0 past n,
            )
            (later-Limited now call.pushed_at (stored hits) past (omega arith) l)
      | yes p ↦ elim (Bool-cases (leb limit (length (recent limit window_ms hits call)))) [
        | inl full ↦
            rw
              (
                consume-full call hits full,
                stored-insert_same call.key (recent limit window_ms hits call) hits p,
                passed_times-refused call past,
                recent-same call hits p,
              )
              (refused-Limited now call.asked_at call.pushed_at (stored hits) past h k l)
        | inr free ↦
            rw
              (
                consume-free call hits free,
                stored-insert_same call.key
                    (recent limit window_ms hits call ++ call.pushed_at ∷ []) hits p,
                passed_times-same call past p,
                recent-same call hits p,
              )
              (passed-Limited now call.asked_at call.pushed_at (stored hits) past h k
                (under (length (recent_of call.asked_at (stored hits)))
                  (rw (recent-same call hits p) at free))
                l)
      ]
    ]

    let_through-Limited :
        (now : ℕ) (calls : List Consume) (hits : Hits) (past : List ℕ)
        → ClockFrom now calls
        → Limited now (stored hits) past
        → (start : ℕ)
        → in_window window_ms start (let_through limit window_ms key calls hits past) ≤ limit
    unfolding let_through passed_times
    let_through-Limited now [] hits past clock l start = l.limited start
    let_through-Limited now (call ∷ calls) hits past clock l start =
        let after = consume limit window_ms hits call in
        let_through-Limited call.pushed_at calls after.1 (passed_times call after.0 past) clock.2
          (consume-Limited now call hits past clock.0 clock.1 l) start

-- When the clock does not go back, then from an empty map on and over any calls, no time window, of
-- the given length and with whatever start, sees more than the limit of calls of one key that are
-- let through.
pub let_through-limited :
    (limit window_ms : ℕ) (key : String) (calls : List Consume)
    → ClockFrom 0 calls
    → (start : ℕ) → in_window window_ms start (let_through limit window_ms key calls [] []) ≤ limit
let_through-limited limit window_ms key calls clock start =
    let_through-Limited limit window_ms key 0 calls [] [] clock (nothing_yet limit window_ms _)
      start
