-- ===== src/SelfHeal/Heals.antt =====
-- The watcher heals at most twice, and never twice within its interval.
use mathlib.Core.Path.{subst}
use dsh_better_edit.Prelude.{
  ℕ, suc, ◌+◌, ◌<◌, ◌≤◌, ◌≡◌, refl, ap, sym, Bool, true, false, ◌||◌, Option, none, some, List, [],
  ◌∷◌, ltb, leb, if◌then◌else◌, Bool-cases, inl, inr, ◌⊎◌, length, arith,
}
use dsh_better_edit.SelfHeal.{
  SelfHealOptions, Layer, Change, Watcher, new_watcher, Restore, Handled, needed, max_heals, heal,
  handle_layer, on_change, add_heal, heal_times,
}

-- Each time is at least the interval behind the one before.
abbrev pub AreSpaced : ℕ → ℕ → List ℕ → Type 0
AreSpaced interval last [] = Unit
AreSpaced interval last (t ∷ ts) = (last + interval ≤ t) × AreSpaced interval t ts

-- What a change does to the watcher: nothing but its switch, or one heal.
abbrev Step : SelfHealOptions → ℕ → Watcher → Handled → Type 0
Step o now w h =
    ((h.restored ≡ none)
      × (h.watcher.heal_count ≡ w.heal_count)
      × (h.watcher.last_heal_at ≡ w.last_heal_at))
    ⊎ ((r : Restore) × (h.restored ≡ some r)
        × (w.heal_count < max_heals)
        × (h.watcher.heal_count ≡ suc w.heal_count)
        × (h.watcher.last_heal_at ≡ now)
        × (w.last_heal_at + o.heal_min_interval ≤ now))

heal-Step :
    (o : SelfHealOptions) (now : ℕ) (r : Restore) (w : Watcher) → Step o now w (heal o now r w)
unfolding heal
heal-Step o now r w = elim (Bool-cases (ltb now (w.last_heal_at + o.heal_min_interval))) [
  | inl soon ↦ rw soon (inl (refl, refl, refl))
  | inr late ↦ elim (Bool-cases (leb max_heals w.heal_count)) [
    | inl many ↦ rw (late, many) (inl (refl, refl, refl))
    | inr few ↦
        rw (late, few)
          (inr (
            r,
            refl,
            below w.heal_count few,
            refl,
            refl,
            behind (w.last_heal_at + o.heal_min_interval) late,
          ))
  ]
]
  where
    below : (n : ℕ) → leb max_heals n ≡ false → n < max_heals
    below n e = ground arith

    behind : (n : ℕ) → ltb now n ≡ false → n ≤ now
    behind n e = ground arith

handle_layer-Step :
    (o : SelfHealOptions) (now : ℕ) (layer : Option Layer) (w : Watcher)
    → Step o now w (handle_layer o now layer w)
handle_layer-Step o now none w = inl (refl, refl, refl)
handle_layer-Step o now (some layer) w =
    by_test ((needed o layer).read || ((needed o layer).edit || (needed o layer).str_replace))
  where
    by_test :
        (b : Bool)
        → Step o now w
            (if b then heal o now (needed o layer) w else record { watcher = w; restored = none })
    by_test true = heal-Step o now (needed o layer) w
    by_test false = inl (refl, refl, refl)

on_change-Step : (o : SelfHealOptions) (c : Change) (w : Watcher) → Step o c.now w (on_change o c w)
unfolding on_change
on_change-Step o c w = by_test w.disabled
  where
    by_test :
        (b : Bool)
        → Step o c.now w
            (if b then record { watcher = w; restored = none } else handle_layer o c.now c.layer w)
    by_test true = inl (refl, refl, refl)
    by_test false = handle_layer-Step o c.now c.layer w

abbrev Goal : SelfHealOptions → Watcher → List ℕ → Type 0
Goal o w times =
    (length times + w.heal_count ≤ max_heals) × AreSpaced o.heal_min_interval w.last_heal_at times

-- The heals still to come are as many as the count leaves, and spaced from the last one.
heal_times-spaced :
    (o : SelfHealOptions) (cs : List Change) (w : Watcher)
    → w.heal_count ≤ max_heals
    → (length (heal_times o cs w) + w.heal_count ≤ max_heals)
      × AreSpaced o.heal_min_interval w.last_heal_at (heal_times o cs w)
unfolding heal_times
heal_times-spaced o [] w h = (omega arith, tt)
heal_times-spaced o (c ∷ cs) w h = elim (on_change-Step o c w) [
  | inl (nothing, count, last) ↦
      let (le, spaced) = heal_times-spaced o cs (on_change o c w).watcher (omega (arith, count)) in
      subst (Goal o w)
        (sym (ap (λ r. add_heal r c.now (heal_times o cs (on_change o c w).watcher)) nothing))
        (
          omega (arith, count, le),
          subst (λ t. AreSpaced o.heal_min_interval t (heal_times o cs (on_change o c w).watcher))
              last spaced,
        )
  | inr (r, healed, few, count, last, late) ↦
      let (le, spaced) =
        heal_times-spaced o cs (on_change o c w).watcher (omega (arith, count, few)) in
      subst (Goal o w)
        (sym (ap (λ r. add_heal r c.now (heal_times o cs (on_change o c w).watcher)) healed))
        (
          omega (arith, count, le),
          (
            late,
            subst (λ t. AreSpaced o.heal_min_interval t (heal_times o cs (on_change o c w).watcher))
                last spaced,
          ),
        )
]

-- Whatever changes of the tools come, a new watcher heals at most twice, each time at least its interval
-- behind the heal before (the first one, behind time 0).
pub heal_times-AreSpaced :
    (o : SelfHealOptions) (cs : List Change)
    → (length (heal_times o cs new_watcher) ≤ max_heals)
      × AreSpaced o.heal_min_interval 0 (heal_times o cs new_watcher)
heal_times-AreSpaced o cs =
    let (le, spaced) = heal_times-spaced o cs new_watcher (omega arith) in
    (omega (arith, le), spaced)
