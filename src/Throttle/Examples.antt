-- ===== src/Throttle/Examples.antt =====
-- The theorems on the limiter and the throttle at work.
use arkain.Prelude.{◌≤◌, [], ◌∷◌, List, arith}
use arkain.Throttle.Limiter.{Consume, let_through}
use arkain.Throttle.Limiter.Window.{in_window, let_through-limited}
use arkain.Throttle.Alerts.{Ask, alerts}
use arkain.Throttle.Alerts.Spacing.{Spaced, alerts-Spaced}
use arkain.Throttle.Alerts.Answers.{AllAnswered, alerts-AllAnswered}

abbrev visits : List Consume
visits =
    record { key = "1.2.3.4"; asked_at = 10; pushed_at = 11 }
    ∷ record { key = "1.2.3.4"; asked_at = 20; pushed_at = 20 }
    ∷ record { key = "1.2.3.4"; asked_at = 30; pushed_at = 30 }
    ∷ []

let_through-limited_example : in_window 1000 5 (let_through 2 1000 "1.2.3.4" visits [] []) ≤ 2
let_through-limited_example =
    let_through-limited 2 1000 "1.2.3.4" visits
      (omega arith, omega arith, (omega arith, omega arith, (omega arith, omega arith, tt))) 5

abbrev asks : List Ask
asks =
    record { key = "a"; now_ms = 10 }
    ∷ record { key = "a"; now_ms = 20 }
    ∷ record { key = "b"; now_ms = 30 }
    ∷ record { key = "a"; now_ms = 1500 }
    ∷ []

alerts-Spaced_example : Spaced 1000 (alerts 1000 "a" asks [] []).1
alerts-Spaced_example = alerts-Spaced 1000 "a" asks

alerts-AllAnswered_example : AllAnswered 1000 "a" asks (alerts 1000 "a" asks [] []).1
alerts-AllAnswered_example =
    alerts-AllAnswered 1000 "a" asks (omega arith, (omega arith, (omega arith, (omega arith, tt))))
