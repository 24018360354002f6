-- ===== src/Adapters/Naver/Examples.antt =====
-- The theorems at work, on a short pull.
use arkain.Prelude.{ℕ, String, Option, none, List, [], ◌∷◌}
use arkain.Adapters.Naver.{OrderCursor, LastChangedStatuses}
use arkain.Adapters.Naver.Windows.{more}
use arkain.Adapters.Naver.Windows

of_parts : List ℕ → Option String → OrderCursor
of_parts (from ∷ _) token = record { from = from; more_sequence = token }
of_parts _ token = record { from = 0; more_sequence = token }

abbrev answers : List (ℕ × LastChangedStatuses)
answers = (100, record { product_order_ids = []; more_sequence = none }) ∷ []
