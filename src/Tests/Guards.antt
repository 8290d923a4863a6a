-- ===== src/Tests/Guards.antt =====
-- The two warning tiers on a small replacement.
use dsh_better_edit.Prelude.{Option, none, some, List, [], ◌∷◌, Str, units}

abbrev slots : List (Option Str)
slots = some (units "AAA") ∷ none ∷ []

abbrev canons : List (Option Str)
canons = some (units "one") ∷ none ∷ []

-- A served anchor before another text, and an anchor that was never served.
abbrev lines : List Str
lines = units "AAA│two" ∷ units "+BBB│one" ∷ []
