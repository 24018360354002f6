-- ===== src/Adapters/Coupang/Examples.antt =====
-- The theorems at work, on a short pull.
use arkain.Prelude.{ℕ, String, Option, none, List, [], ◌∷◌}
use arkain.Adapters.Coupang.{OrderCursor, CoupangOrderSheets}
use arkain.Adapters.Coupang.Windows.{more}
use arkain.Adapters.Coupang.Windows

of_parts : List ℕ → Option String → OrderCursor
of_parts (i ∷ from ∷ _) token = record { status_idx = i; from = from; next_token = token }
of_parts _ token = record { status_idx = 0; from = 0; next_token = token }

abbrev no_sheets : CoupangOrderSheets
no_sheets = record { next_token = none; sheets = [] }

abbrev answers : List (ℕ × CoupangOrderSheets)
answers =
    (100, no_sheets)
    ∷ (101, no_sheets)
    ∷ (102, no_sheets)
    ∷ (103, no_sheets)
    ∷ (104, no_sheets)
    ∷ (105, no_sheets)
    ∷ []
