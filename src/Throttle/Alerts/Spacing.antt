-- ===== src/Throttle/Alerts/Spacing.antt =====
-- The alerts of one key stand at least a window apart.
use arkain.Prelude.{
  ℕ, ◌+◌, ◌≤◌, String, ◌≡◌, ◌≢◌, refl, sym, ap, ◌∙◌, Bool, true, false, Option, none, some, List,
  [], ◌∷◌, ◌&&◌, if◌then◌else◌, String-discrete, holds, holds-yes, holds-no, arith, Bool-cases, inl,
  inr, if_pos, if_neg,
}
use arkain.Prelude.Dict.{lookup, insert, lookup-insert}
use arkain.Throttle.Alerts.{Ask, LastSent, suppressed, should_send, alerts}

-- The last time of a list that has the last one first, and lists in which each time is at least
-- `window_ms` after the one before it.
abbrev pub latest : List ℕ → Option ℕ
latest [] = none
latest (t ∷ times) = some t

abbrev pub LaterBy : ℕ → ℕ → Option ℕ → Type 0
LaterBy window_ms t none = Unit
LaterBy window_ms t (some before) = before + window_ms ≤ t

abbrev pub Spaced : ℕ → List ℕ → Type 0
Spaced window_ms [] = Unit
Spaced window_ms (t ∷ times) = LaterBy window_ms t (latest times) × Spaced window_ms times

module _ (window_ms : ℕ) (key : String) where
  pub record Kept (m : LastSent) (past : List ℕ) : Type 0 where
    pub last : lookup String-discrete key m ≡ latest past
    pub spaced : Spaced window_ms past

  later_enough :
      (o : Option ℕ) (now : ℕ) → suppressed window_ms o now ≡ false → LaterBy window_ms now o
  unfolding suppressed
  later_enough none now h = tt
  later_enough (some t) now h = ground arith

  unfoldable pub alerted : Ask → Bool → List ℕ → List ℕ
  alerted ask sent past =
      if sent && holds (String-discrete ask.key key) then ask.now_ms ∷ past else past

  alerted-other :
      (ask : Ask) (sent : Bool) (past : List ℕ)
      → ◌≢◌ {A = String} ask.key key
      → alerted ask sent past ≡ past
  unfolding alerted
  alerted-other ask true past n = rw (holds-no (String-discrete ask.key key) n)
  alerted-other ask false past n = refl

  pub alerted-same :
      (ask : Ask) (past : List ℕ) → ask.key ≡ key → alerted ask true past ≡ ask.now_ms ∷ past
  unfolding alerted
  alerted-same ask past p = rw (holds-yes (String-discrete ask.key key) p)

  pub alerted-suppressed : (ask : Ask) (past : List ℕ) → alerted ask false past ≡ past
  unfolding alerted
  alerted-suppressed ask past = refl

  pub should_send-suppressed :
      (ask : Ask) (m : LastSent)
      → suppressed window_ms (lookup String-discrete ask.key m) ask.now_ms ≡ true
      → should_send window_ms m ask ≡ (false, m)
  unfolding should_send
  should_send-suppressed ask m h = rw h

  pub should_send-sent :
      (ask : Ask) (m : LastSent)
      → suppressed window_ms (lookup String-discrete ask.key m) ask.now_ms ≡ false
      → should_send window_ms m ask ≡ (true, insert String-discrete ask.key ask.now_ms m)
  unfolding should_send
  should_send-sent ask m h = rw h

  sent-Kept :
      (ask : Ask) (m : LastSent) (past : List ℕ)
      → suppressed window_ms (lookup String-discrete ask.key m) ask.now_ms ≡ false
      → Kept m past
      → Kept (insert String-discrete ask.key ask.now_ms m) (alerted ask true past)
  sent-Kept ask m past h k = elim (String-discrete ask.key key) [
    | yes p ↦ rw (alerted-same ask past p) (record {
      last = lookup-insert String-discrete ask.key key ask.now_ms m ∙ rw (if_pos _ p);
      spaced = (
        later_enough (latest past) ask.now_ms (
            ap (λ o. suppressed window_ms o ask.now_ms)
              (sym (ap (λ j. lookup String-discrete j m) p ∙ k.last))
            ∙ h),
        k.spaced,
      );
    })
    | no n ↦ rw (alerted-other ask true past n) (record {
      last = lookup-insert String-discrete ask.key key ask.now_ms m ∙ rw (if_neg _ n) k.last;
      spaced = k.spaced;
    })
  ]

  pub should_send-Kept :
      (ask : Ask) (m : LastSent) (past : List ℕ)
      → Kept m past
      → Kept (should_send window_ms m ask).1 (alerted ask (should_send window_ms m ask).0 past)
  should_send-Kept ask m past k =
      elim (Bool-cases (suppressed window_ms (lookup String-discrete ask.key m) ask.now_ms)) [
        | inl h ↦ rw (should_send-suppressed ask m h, alerted-suppressed ask past) k
        | inr h ↦ rw (should_send-sent ask m h) (sent-Kept ask m past h k)
      ]

  alerts-Kept :
      (asks : List Ask) (m : LastSent) (past : List ℕ)
      → Kept m past
      → Kept (alerts window_ms key asks m past).0 (alerts window_ms key asks m past).1
  unfolding alerts alerted
  alerts-Kept [] m past k = k
  alerts-Kept (ask ∷ asks) m past k =
      alerts-Kept asks (should_send window_ms m ask).1
        (alerted ask (should_send window_ms m ask).0 past) (should_send-Kept ask m past k)

-- From an empty map on and over any asks, of whatever keys and with whatever clock, each alert of a
-- key is sent at least a window after the alert of that key before it.
pub alerts-Spaced :
    (window_ms : ℕ) (key : String) (asks : List Ask)
    → Spaced window_ms (alerts window_ms key asks [] []).1
alerts-Spaced window_ms key asks =
    let empty : Kept window_ms key [] [] = record { last = unfold lookup in refl; spaced = tt } in
    (alerts-Kept window_ms key asks [] [] empty).spaced
