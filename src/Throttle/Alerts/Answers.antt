-- ===== src/Throttle/Alerts/Answers.antt =====
-- No alert is lost for longer than a window.
use arkain.Prelude.{
  ℕ, ◌+◌, ◌≤◌, ◌<◌, ◌⊎◌, String, ◌≡◌, refl, sym, ap, ◌∙◌, Bool, true, List, [], ◌∷◌, ◌&&◌,
  String-discrete, holds, arith, Bool-cases, inl, inr, All,
}
use arkain.Prelude.Dict.{lookup}
use arkain.Throttle.Alerts.{Ask, LastSent, suppressed, should_send, alerts}
use arkain.Throttle.Alerts.Spacing.{
  latest, Kept, alerted, alerted-same, alerted-suppressed, should_send-suppressed, should_send-sent,
  should_send-Kept,
}

-- The clock does not go back.
abbrev pub AsksFrom : ℕ → List Ask → Type 0
AsksFrom now [] = Unit
AsksFrom now (ask ∷ asks) = (now ≤ ask.now_ms) × AsksFrom ask.now_ms asks

-- An alert answers what is asked at `now`: one of that very time, or of a window that lasts still.
abbrev pub Answered : ℕ → ℕ → List ℕ → Type 0
Answered window_ms now [] = ⊥
Answered window_ms now (t ∷ times) =
    ((t ≤ now) × ((now ≡ t) ⊎ (now < t + window_ms))) ⊎ Answered window_ms now times

abbrev pub AllAnswered : ℕ → String → List Ask → List ℕ → Type 0
AllAnswered window_ms key [] times = Unit
AllAnswered window_ms key (ask ∷ asks) times =
    (ask.key ≡ key → Answered window_ms ask.now_ms times) × AllAnswered window_ms key asks times

module _ (window_ms : ℕ) (key : String) where
  alerted-Answered :
      (now : ℕ) (ask : Ask) (sent : Bool) (past : List ℕ)
      → Answered window_ms now past
      → Answered window_ms now (alerted window_ms key ask sent past)
  unfolding alerted
  alerted-Answered now ask sent past h =
      elim (Bool-cases (sent && holds (String-discrete ask.key key))) [
        | inl e ↦ rw e (inr h)
        | inr e ↦ rw e h
      ]

  alerts-Answered :
      (now : ℕ) (asks : List Ask) (m : LastSent) (past : List ℕ)
      → Answered window_ms now past
      → Answered window_ms now (alerts window_ms key asks m past).1
  unfolding alerts alerted
  alerts-Answered now [] m past h = h
  alerts-Answered now (ask ∷ asks) m past h =
      alerts-Answered now asks (should_send window_ms m ask).1
        (alerted window_ms key ask (should_send window_ms m ask).0 past)
        (alerted-Answered now ask (should_send window_ms m ask).0 past h)

  window_lasts :
      (now : ℕ) (past : List ℕ)
      → All (λ t. t ≤ now) past
      → suppressed window_ms (latest past) now ≡ true
      → Answered window_ms now past
  unfolding suppressed
  window_lasts now [] h e = cc
  window_lasts now (t ∷ past) h e = inl (h.0, inr (ground arith))

  should_send-Answered :
      (ask : Ask) (m : LastSent) (past : List ℕ)
      → Kept window_ms key m past
      → All (λ t. t ≤ ask.now_ms) past
      → ask.key ≡ key
      → Answered window_ms ask.now_ms
          (alerted window_ms key ask (should_send window_ms m ask).0 past)
  should_send-Answered ask m past k early p =
      elim (Bool-cases (suppressed window_ms (lookup String-discrete ask.key m) ask.now_ms)) [
        | inl h ↦
            rw
              (
                should_send-suppressed window_ms key ask m h,
                alerted-suppressed window_ms key ask past,
              )
              (window_lasts ask.now_ms past early (
                ap (λ o. suppressed window_ms o ask.now_ms)
                  (sym (ap (λ j. lookup String-discrete j m) p ∙ k.last))
                ∙ h))
        | inr h ↦
            rw (should_send-sent window_ms key ask m h, alerted-same window_ms key ask past p)
              (inl (omega arith, inl refl))
      ]

  All-later :
      (now later : ℕ) (past : List ℕ)
      → now ≤ later
      → All (λ t. t ≤ now) past
      → All (λ t. t ≤ later) past
  All-later now later [] h a = tt
  All-later now later (t ∷ past) h a = (omega (arith, a.0), All-later now later past h a.1)

  alerted-early :
      (ask : Ask) (sent : Bool) (past : List ℕ)
      → All (λ t. t ≤ ask.now_ms) past
      → All (λ t. t ≤ ask.now_ms) (alerted window_ms key ask sent past)
  unfolding alerted
  alerted-early ask sent past h = elim (Bool-cases (sent && holds (String-discrete ask.key key))) [
    | inl e ↦ rw e (omega arith, h)
    | inr e ↦ rw e h
  ]

  alerts-AllAnswered_from :
      (now : ℕ) (asks : List Ask) (m : LastSent) (past : List ℕ)
      → AsksFrom now asks
      → All (λ t. t ≤ now) past
      → Kept window_ms key m past
      → AllAnswered window_ms key asks (alerts window_ms key asks m past).1
  unfolding alerts alerted
  alerts-AllAnswered_from now [] m past clock early k = tt
  alerts-AllAnswered_from now (ask ∷ asks) m past clock early k =
      let (sent, after) = should_send window_ms m ask in
      let earlier = All-later now ask.now_ms past clock.0 early in
      (
        λ p.
            alerts-Answered ask.now_ms asks after (alerted window_ms key ask sent past)
              (should_send-Answered ask m past k earlier p),
        alerts-AllAnswered_from ask.now_ms asks after (alerted window_ms key ask sent past) clock.1
            (alerted-early ask sent past earlier) (should_send-Kept window_ms key ask m past k),
      )

-- When the clock does not go back, each ask of a key is answered by an alert of that key: one is
-- sent then, or one was sent less than a window before.
pub alerts-AllAnswered :
    (window_ms : ℕ) (key : String) (asks : List Ask)
    → AsksFrom 0 asks
    → AllAnswered window_ms key asks (alerts window_ms key asks [] []).1
alerts-AllAnswered window_ms key asks clock =
    let empty : Kept window_ms key [] [] = record { last = unfold lookup in refl; spaced = tt } in
    alerts-AllAnswered_from window_ms key 0 asks [] [] clock tt empty
