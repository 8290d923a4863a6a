-- ===== src/SelfHeal.antt =====
-- src/self-heal.ts: the watcher that puts the tools of the program back when another preset took their
-- places. A tool's definition is a number, so that two definitions can be compared; the clock and
-- the layer of the agent's tools are part of the event. Log lines are left out.
pub mod Heals
use dsh_better_edit.Prelude.{
  ℕ, zero, suc, ◌+◌, Bool, true, false, ◌&&◌, ◌||◌, not, Option, none, some, List, [], ◌∷◌, ltb,
  leb, ◌==◌, if◌then◌else◌,
}

-- The options of the watcher; no `str_replace_def` means that this tool is not watched.
pub record SelfHealOptions : Type 0 where
  pub read_def : ℕ
  pub edit_def : ℕ
  pub str_replace_def : Option ℕ
  pub heal_min_interval : ℕ

-- The definitions that the layer has.
pub record Layer : Type 0 where
  pub read : Option ℕ
  pub edit : Option ℕ
  pub str_replace : Option ℕ

-- A change of the tools at a time, with the layer if there is one.
pub record Change : Type 0 where
  pub now : ℕ
  pub layer : Option Layer

pub record Watcher : Type 0 where
  pub last_heal_at : ℕ
  pub heal_count : ℕ
  pub disabled : Bool

abbrev pub new_watcher : Watcher
new_watcher = record { last_heal_at = 0; heal_count = 0; disabled = false }

-- Which tools a heal puts back.
pub record Restore : Type 0 where
  pub read : Bool
  pub edit : Bool
  pub str_replace : Bool

pub record Handled : Type 0 where
  pub watcher : Watcher
  pub restored : Option Restore

abbrev pub has_def : Option ℕ → ℕ → Bool
has_def none d = false
has_def (some c) d = c == d

abbrev pub str_replace_ok : Option ℕ → Option ℕ → Bool
str_replace_ok current none = true
str_replace_ok current (some d) = has_def current d

-- The tools that are not the program's own.
abbrev pub needed : SelfHealOptions → Layer → Restore
needed o layer = record {
  read = not (has_def layer.read o.read_def);
  edit = not (has_def layer.edit o.edit_def);
  str_replace = not (str_replace_ok layer.str_replace o.str_replace_def);
}

abbrev pub max_heals : ℕ
max_heals = 2

-- The handler once a layer is there and a tool is not the program's own.
unfoldable pub heal : SelfHealOptions → ℕ → Restore → Watcher → Handled
heal o now r w =
    if ltb now (w.last_heal_at + o.heal_min_interval)
    then record { watcher = w; restored = none }
    else if leb max_heals w.heal_count
    then record { watcher = record w { disabled = true }; restored = none }
    else record {
      watcher = record w { heal_count = suc w.heal_count; last_heal_at = now };
      restored = some r;
    }

abbrev pub handle_layer : SelfHealOptions → ℕ → Option Layer → Watcher → Handled
handle_layer o now none w = record { watcher = w; restored = none }
handle_layer o now (some layer) w =
    let r = needed o layer in
    if r.read || (r.edit || r.str_replace)
    then heal o now r w
    else record { watcher = w; restored = none }

-- The handler of `tools/change`.
unfoldable pub on_change : SelfHealOptions → Change → Watcher → Handled
on_change o c w =
    if w.disabled then record { watcher = w; restored = none } else handle_layer o c.now c.layer w

pub data Tool : Type 0 where
  edit_tool str_replace_tool read_tool : Tool

-- The microtask, where the layer is still there: the tools put back in their order, until a registration fails.
unfoldable pub restore_tools : (Tool → Bool) → Restore → List Tool
restore_tools fails r =
    let read = if r.read && not (fails read_tool) then read_tool ∷ [] else [] in
    let str_replace =
      if r.str_replace
      then (if fails str_replace_tool then [] else str_replace_tool ∷ read)
      else read in
    if r.edit then (if fails edit_tool then [] else edit_tool ∷ str_replace) else str_replace

abbrev pub add_heal : Option Restore → ℕ → List ℕ → List ℕ
add_heal none now times = times
add_heal (some r) now times = now ∷ times

-- The times of the heals that a sequence of changes brings about.
unfoldable pub heal_times : SelfHealOptions → List Change → Watcher → List ℕ
heal_times o [] w = []
heal_times o (c ∷ cs) w =
    let handled = on_change o c w in
    let rest = heal_times o cs handled.watcher in add_heal handled.restored c.now rest
