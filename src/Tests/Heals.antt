-- ===== src/Tests/Heals.antt =====
-- Three takeovers of the edit tool.
use dsh_better_edit.Prelude.{ℕ, ◌≡◌, ◌≤◌, refl, none, some, List, [], ◌∷◌, length}
use dsh_better_edit.SelfHeal.{
  SelfHealOptions, Change, new_watcher, heal_times, on_change, heal, max_heals,
}
use dsh_better_edit.SelfHeal.Heals.{AreSpaced, heal_times-AreSpaced}

abbrev options : SelfHealOptions
options = record { read_def = 1; edit_def = 2; str_replace_def = none; heal_min_interval = 1000 }

abbrev takeover : ℕ → Change
takeover t = record {
  now = t;
  layer = some (record { read = some 1; edit = some 9; str_replace = none });
}

abbrev changes : List Change
changes = takeover 5000 ∷ takeover 5500 ∷ takeover 7000 ∷ takeover 9000 ∷ takeover 20000 ∷ []

healed_twice : heal_times options changes new_watcher ≡ 5000 ∷ 7000 ∷ []
unfolding heal_times on_change heal
healed_twice = refl

heal_times-AreSpaced_example :
    (length (heal_times options changes new_watcher) ≤ max_heals)
    × AreSpaced 1000 0 (heal_times options changes new_watcher)
heal_times-AreSpaced_example = heal_times-AreSpaced options changes
