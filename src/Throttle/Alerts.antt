-- ===== src/Throttle/Alerts.antt =====
-- src/alerting/notifier.ts: the notifier, which logs each event and posts it where a webhook is set,
-- and the throttle, which lets one alert through in each window.
pub mod Spacing
pub mod Answers
use Prim.Native.String.{◌++◌ as text_append}
use arkain.Prelude.{
  ℕ, ◌+◌, String, Bool, true, false, Option, none, some, List, [], ◌∷◌, ◌&&◌, if◌then◌else◌, ltb,
  leb, String-discrete, holds,
}
use arkain.Prelude.Dict.{lookup, insert}

pub data AlertCategory : Type 0 where
  sync_failure rate_limit settlement_mismatch password_reset : AlertCategory

pub record AlertEvent : Type 0 where
  pub category : AlertCategory
  pub message : String

pub data LogLevel : Type 0 where
  warn error : LogLevel

abbrev pub category_text : AlertCategory → String
category_text sync_failure = "sync_failure"
category_text rate_limit = "rate_limit"
category_text settlement_mismatch = "settlement_mismatch"
category_text password_reset = "password_reset"

-- `LOG_LEVEL_BY_CATEGORY`
unfoldable pub log_level_by_category : AlertCategory → LogLevel
log_level_by_category sync_failure = error
log_level_by_category rate_limit = warn
log_level_by_category settlement_mismatch = error
log_level_by_category password_reset = warn

-- What the webhook's `fetch` comes to: an answer, with its status, or a throw.
pub data Delivery : Type 0 where
  answered : ℕ → Delivery
  failed : Delivery

-- What `send` does to the outside, in order.
pub data Effect : Type 0 where
  logged : LogLevel → String → Effect
  posted : String → String → Effect

abbrev is_ok : ℕ → Bool
is_ok status = leb 200 status && leb status 299

unfoldable pub after_delivery : Delivery → List Effect
after_delivery (answered status) =
    if is_ok status then [] else logged error "alert webhook responded with a non-2xx status" ∷ []
after_delivery failed = logged error "failed to deliver alert webhook" ∷ []

unfoldable pub alert_text : String → AlertEvent → String
alert_text env event = text_append "[ARKAIN/" (
    text_append env (
      text_append "] "
        (text_append (category_text event.category) (text_append ": " event.message))))

module _ (webhook_url : Option String) (env : String) where
  -- with what the fetch comes to, if it is made
  unfoldable pub send : AlertEvent → Delivery → List Effect
  unfolding log_level_by_category after_delivery alert_text
  send event delivery =
      logged (log_level_by_category event.category) event.message ∷ webhook webhook_url
    where
      webhook : Option String → List Effect
      webhook none = []
      webhook (some url) =
          if holds (String-discrete url "")
          then []
          else posted url (alert_text env event) ∷ after_delivery delivery

-- A call of `shouldSend`, with what `now()` returns.
pub record Ask : Type 0 where
  pub key : String
  pub now_ms : ℕ

abbrev pub LastSent : Type 0
LastSent = List (String × ℕ)

module _ (window_ms : ℕ) where
  -- `last != null && nowMs - last < windowMs`
  unfoldable pub suppressed : Option ℕ → ℕ → Bool
  suppressed none now_ms = false
  suppressed (some last) now_ms = ltb now_ms (last + window_ms)

  unfoldable pub should_send : LastSent → Ask → Bool × LastSent
  unfolding suppressed
  should_send last_sent_at ask =
      if suppressed (lookup String-discrete ask.key last_sent_at) ask.now_ms
      then (false, last_sent_at)
      else (true, insert String-discrete ask.key ask.now_ms last_sent_at)

  -- The map after the calls, and the times of the alerts of `key`, the last one first, put before
  -- `past`.
  unfoldable pub alerts : String → List Ask → LastSent → List ℕ → LastSent × List ℕ
  unfolding should_send
  alerts key [] last_sent_at past = (last_sent_at, past)
  alerts key (ask ∷ asks) last_sent_at past =
      let (sent, after) = should_send last_sent_at ask in
      alerts key asks after
        (if sent && holds (String-discrete ask.key key) then ask.now_ms ∷ past else past)
