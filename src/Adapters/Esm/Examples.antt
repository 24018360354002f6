-- ===== src/Adapters/Esm/Examples.antt =====
-- The theorems at work, on a short pull.
use arkain.Prelude.{◌≡◌, refl, ℕ, String, Option, none, List, [], ◌∷◌, arith}
use arkain.Adapters.Cursors.{CursorCodec}
use arkain.Adapters.Sweep.{Any}
use arkain.Adapters.Pull.{pull}
use arkain.Adapters.Toys.{parts_codec}
use arkain.Adapters.Http.{Utc}
use arkain.Adapters.Esm.{EsmSite, auction, gmarket, OrderCursor}
use arkain.Adapters.Esm.Windows.{step, AskedFor, first, pull-AskedAtEach, pull_ends_lem}

of_parts : List ℕ → Option String → OrderCursor
of_parts (s ∷ i ∷ from ∷ page ∷ _) _ = record {
  site_idx = s;
  status_idx = i;
  from = from;
  page_index = page;
}
of_parts _ _ = record { site_idx = 0; status_idx = 0; from = 0; page_index = 0 }

codec : CursorCodec OrderCursor
unfolding of_parts
codec =
    parts_codec 3 (λ c. c.site_idx ∷ c.status_idx ∷ c.from ∷ c.page_index ∷ []) (λ c. none) of_parts
      (λ c. refl) (λ c. refl)

-- pages that are not full, for two storefronts and five statuses
abbrev answers : List (ℕ × ℕ)
answers =
    (100, 3)
    ∷ (101, 0)
    ∷ (102, 199)
    ∷ (103, 1)
    ∷ (104, 0)
    ∷ (105, 0)
    ∷ (106, 7)
    ∷ (107, 0)
    ∷ (108, 0)
    ∷ (109, 2)
    ∷ []

pull_ends_lem_example : (pull (step codec 2) (first codec 2 7) answers).1 ≡ none
pull_ends_lem_example =
    pull_ends_lem codec 2 7 109 0 answers (omega arith) (omega arith) (ground arith) (omega arith)

ends : (pull (step codec 2) (first codec 2 7) answers).1 ≡ none
ends =
    pull_ends_lem codec 2 7 109 0 answers (omega arith) (omega arith) (ground arith) (omega arith)

-- the parts of a time, as far as a pull of a few milliseconds needs them
abbrev utc : ℕ → Utc
utc ms = record { full_year = 1970; month = 0; date = 1; hours = 0; minutes = 0; seconds = 0 }

abbrev storefronts : List EsmSite
storefronts = gmarket ∷ auction ∷ []

pull-AskedAtEach_example :
    Any (AskedFor utc storefronts 0 4 20 auction) (pull (step codec 2) (first codec 2 7) answers).0
pull-AskedAtEach_example =
    pull-AskedAtEach utc storefronts codec 0 7 50 1 3 20 auction answers refl (omega arith)
      (ground arith) ends (omega arith) (omega arith)
