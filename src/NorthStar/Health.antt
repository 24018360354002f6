-- ===== src/NorthStar/Health.antt =====
-- src/domain/northStar.ts: the health score and the scores that it is made of. A share or a score is
-- its numerator and denominator. The health score takes its scores brought to one denominator, as
-- their numerators, and a weight in tenths.
use arkain.Prelude.{ℕ, ◌+◌, ◌-◌, ◌*◌, ◌≤◌, ◌<◌, Option, none, some, if◌then◌else◌, ◌==◌, min, arith}

pub record HealthScoreInputs : Type 0 where
  pub cash_score : Option ℕ
  pub receivables_score : Option ℕ
  pub conversion_score : Option ℕ
  pub margin_score : Option ℕ
  pub speed_score : Option ℕ

pub record Sums : Type 0 where
  pub weighted_sum : ℕ
  pub weight_total : ℕ

pub record HealthScore : Type 0 where
  pub inputs : HealthScoreInputs
  pub weighted : Option (ℕ × ℕ)

-- the body of the loop for one axis, with its weight of `HEALTH_SCORE_WEIGHTS`
unfoldable pub add_axis : Option ℕ → ℕ → Sums → Sums
add_axis none weight sums = sums
add_axis (some score) weight sums = record {
  weighted_sum = sums.weighted_sum + score * weight;
  weight_total = sums.weight_total + weight;
}

unfoldable pub compute_health_score : HealthScoreInputs → HealthScore
unfolding add_axis
compute_health_score inputs =
    let sums = add_axis inputs.speed_score 1 (
      add_axis inputs.margin_score 2 (
        add_axis inputs.conversion_score 2 (
          add_axis inputs.receivables_score 2
            (add_axis inputs.cash_score 3 (record { weighted_sum = 0; weight_total = 0 }))))) in
    record {
      inputs = inputs;
      weighted =
          if sums.weight_total == 0 then none else some (sums.weighted_sum, sums.weight_total);
    }

-- `clampScore`, of a number that is not negative
unfoldable pub clamp_score : ℕ × ℕ → ℕ × ℕ
clamp_score (points, whole) = (min (100 * whole) points, whole)

-- a share of 1 at most
unfoldable pub receivables_score_from_aging : Option (ℕ × ℕ) → Option (ℕ × ℕ)
unfolding clamp_score
receivables_score_from_aging none = some (100, 1)
receivables_score_from_aging (some (part, whole)) = some (clamp_score ((whole - part) * 100, whole))

unfoldable pub conversion_score_from_rate : Option (ℕ × ℕ) → Option (ℕ × ℕ)
unfolding clamp_score
conversion_score_from_rate none = none
conversion_score_from_rate (some (part, whole)) = some (clamp_score (part * 100, whole))

-- Every score that is there lies between the two bounds.
abbrev pub Within : ℕ → ℕ → Option ℕ → Type 0
Within low high none = Unit
Within low high (some score) = (low ≤ score) × (score ≤ high)

pub record AllWithin (low high : ℕ) (inputs : HealthScoreInputs) : Type 0 where
  pub cash : Within low high inputs.cash_score
  pub receivables : Within low high inputs.receivables_score
  pub conversion : Within low high inputs.conversion_score
  pub margin : Within low high inputs.margin_score
  pub speed : Within low high inputs.speed_score

abbrev pub Average : ℕ → ℕ → Option (ℕ × ℕ) → Type 0
Average low high none = Unit
Average low high (some (sum, total)) = (0 < total) × (low * total ≤ sum) × (sum ≤ high * total)

abbrev Bounded : ℕ → ℕ → Sums → Type 0
Bounded low high s =
    (low * s.weight_total ≤ s.weighted_sum) × (s.weighted_sum ≤ high * s.weight_total)

add_axis-Bounded :
    (low high : ℕ) (axis : Option ℕ) (weight : ℕ) (sums : Sums)
    → Within low high axis
    → Bounded low high sums
    → Bounded low high (add_axis axis weight sums)
unfolding add_axis
add_axis-Bounded low high none weight sums w h = h
add_axis-Bounded low high (some score) weight sums w h = (grind (arith, w, h), grind (arith, w, h))

sums-Average :
    (low high : ℕ) (s : Sums)
    → Bounded low high s
    → Average low high (if s.weight_total == 0 then none else some (s.weighted_sum, s.weight_total))
sums-Average low high s h = ground (arith, h)

-- When the scores that are there lie between two bounds, so does the health score: it is their
-- average by weight, over the axes that have a score, and with no score there is no health score.
pub compute_health_score-Average :
    (low high : ℕ) (inputs : HealthScoreInputs)
    → AllWithin low high inputs
    → Average low high (compute_health_score inputs).weighted
unfolding compute_health_score
compute_health_score-Average low high inputs h =
    let b0 : Bounded low high (record { weighted_sum = 0; weight_total = 0 }) =
      (omega arith, omega arith) in
    let b1 = add_axis-Bounded low high inputs.cash_score 3 _ h.cash b0 in
    let b2 = add_axis-Bounded low high inputs.receivables_score 2 _ h.receivables b1 in
    let b3 = add_axis-Bounded low high inputs.conversion_score 2 _ h.conversion b2 in
    let b4 = add_axis-Bounded low high inputs.margin_score 2 _ h.margin b3 in
    sums-Average low high _ (add_axis-Bounded low high inputs.speed_score 1 _ h.speed b4)
