-- ===== src/Pairing/Align.antt =====
-- `pairSnapshots` of src/snapshot-store/pairing.ts: the recursion over intervals with its scan budget. The
-- pairing is the list of the map's entries in the order of their insertion.
pub mod Sound
use dsh_better_edit.Prelude.{
  ℕ, zero, suc, ◌+◌, ◌-◌, ◌*◌, Bool, true, false, ◌&&◌, ◌||◌, Option, none, some, List, [], ◌∷◌,
  Str, ◌==◌, ltb, leb, if◌then◌else◌, str_eq, length, max,
}
use dsh_better_edit.Pairing.Pins.{AnchorPin, interval, find_unique_pins}
use dsh_better_edit.Pairing.Backbone.{find_stable_pin_backbone}
use dsh_better_edit.Pairing.Lcs.{compute_lcs_paths}

abbrev pub max_leaf_lines : ℕ
max_leaf_lines = 2000

abbrev pub max_leaf_cells : ℕ
max_leaf_cells = 4000000

abbrev pub min_scan_budget : ℕ
min_scan_budget = 100000

abbrev pub budget_lines_factor : ℕ
budget_lines_factor = 4

unfoldable pub pairing_scan_budget : ℕ → ℕ → ℕ
pairing_scan_budget prev_count curr_count =
    max min_scan_budget (budget_lines_factor * (prev_count + curr_count))

-- `pairing.set(prev, curr)`: a known key keeps its place.
unfoldable pub set_pair : AnchorPin → List AnchorPin → List AnchorPin
set_pair pin [] = pin ∷ []
set_pair pin (p ∷ ps) = elim (p.prev_line == pin.prev_line) [
  | true ↦ pin ∷ ps
  | false ↦ p ∷ set_pair pin ps
]

unfoldable pub set_pairs : List AnchorPin → List AnchorPin → List AnchorPin
set_pairs [] pairing = pairing
set_pairs (pin ∷ pins) pairing = set_pairs pins (set_pair pin pairing)

-- What the recursion changes.
pub record Aligned : Type 0 where
  pub scan_budget : ℕ
  pub pairing : List AnchorPin

-- Two lists of keys are the same.
unfoldable pub identical : List Str → List Str → Bool
identical [] [] = true
identical [] (c ∷ cs) = false
identical (p ∷ ps) [] = false
identical (p ∷ ps) (c ∷ cs) = str_eq p c && identical ps cs

-- The pairs of `count` lines from the numbers `p` and `c` on.
unfoldable pub zip_pins : ℕ → ℕ → ℕ → List AnchorPin
zip_pins zero p c = []
zip_pins (suc count) p c = record { prev_line = p; curr_line = c } ∷ zip_pins count (suc p) (suc c)

abbrev pub too_large : ℕ → ℕ → Bool
too_large p_count c_count =
    ltb max_leaf_lines p_count
    || (ltb max_leaf_lines c_count || ltb max_leaf_cells (p_count * c_count))

-- An interval without stable pins.
unfoldable pub align_leaf : List Str → List Str → ℕ → ℕ → ℕ → ℕ → Aligned → Aligned
align_leaf prev_lines curr_lines p_start p_end c_start c_end st =
    let p_count = p_end + 1 - p_start in
    let c_count = c_end + 1 - c_start in
    let lcs = compute_lcs_paths prev_lines curr_lines p_start p_end c_start c_end in
    if (p_count == c_count)
      && identical (interval prev_lines p_start p_end) (interval curr_lines c_start c_end)
    then record st { pairing = set_pairs (zip_pins p_count p_start c_start) st.pairing }
    else if too_large p_count c_count
    then st
    else if lcs.is_unique
    then record st { pairing = set_pairs lcs.pairs st.pairing }
    else st

-- A call of the recursion: the bounds of the two intervals and the state.
abbrev pub Call : Type 0
Call = ℕ → ℕ → ℕ → ℕ → Aligned → Option Aligned

-- The intervals between stable pins, and the pins.
unfoldable pub align_pins : Call → List AnchorPin → ℕ → ℕ → ℕ → ℕ → Aligned → Option Aligned
align_pins recurse [] p_cursor p_end c_cursor c_end st = recurse p_cursor p_end c_cursor c_end st
align_pins recurse (pin ∷ pins) p_cursor p_end c_cursor c_end st =
    elim (recurse p_cursor (pin.prev_line - 1) c_cursor (pin.curr_line - 1) st) [
      | none ↦ none
      | some before ↦
          align_pins recurse pins (pin.prev_line + 1) p_end (pin.curr_line + 1) c_end
            (record before { pairing = set_pair pin before.pairing })
    ]

abbrev pub align_stable : Call → List AnchorPin → Aligned → ℕ → ℕ → ℕ → ℕ → Aligned → Option Aligned
align_stable recurse [] leaf p_start p_end c_start c_end st = some leaf
align_stable recurse (pin ∷ pins) leaf p_start p_end c_start c_end st =
    align_pins recurse (pin ∷ pins) p_start p_end c_start c_end st

-- `alignRecursive`, with fuel for its depth; no stable pins without candidates.
unfoldable pub align_recursive : List Str → List Str → ℕ → Call
align_recursive prev_lines curr_lines zero p_start p_end c_start c_end st = none
align_recursive prev_lines curr_lines (suc fuel) p_start p_end c_start c_end st =
    let length_of = (p_end + 1 - p_start) + (c_end + 1 - c_start) in
    let paid : Aligned = record st { scan_budget = st.scan_budget - length_of } in
    let deeper =
      align_stable (align_recursive prev_lines curr_lines fuel)
        (find_stable_pin_backbone
          (find_unique_pins prev_lines curr_lines p_start p_end c_start c_end))
        (align_leaf prev_lines curr_lines p_start p_end c_start c_end paid) p_start p_end c_start
        c_end paid in
    if ltb p_end p_start || ltb c_end c_start
    then some st
    else if ltb st.scan_budget length_of
    then some st
    else deeper

-- `[...pairing.entries()].sort((a, b) => a[0] - b[0])`.
unfoldable pub insert_pin : AnchorPin → List AnchorPin → List AnchorPin
insert_pin pin [] = pin ∷ []
insert_pin pin (p ∷ ps) =
    if ltb pin.prev_line p.prev_line then pin ∷ p ∷ ps else p ∷ insert_pin pin ps

unfoldable pub sort_pins : List AnchorPin → List AnchorPin
sort_pins [] = []
sort_pins (p ∷ ps) = insert_pin p (sort_pins ps)

-- Whether the new lines of the sorted entries rise from above `last`.
unfoldable pub is_rising : ℕ → List AnchorPin → Bool
is_rising last_curr [] = true
is_rising last_curr (p ∷ ps) = if leb p.curr_line last_curr then false else is_rising p.curr_line ps

-- What `pairSnapshots` ends with; `assertMonotonicPairing` throws the violation.
pub data PairingOutcome : Type 0 where
  paired : List AnchorPin → PairingOutcome
  monotonicity_violation : PairingOutcome
  out_of_fuel : PairingOutcome

unfoldable pub assert_monotonic_pairing : List AnchorPin → PairingOutcome
assert_monotonic_pairing pairing =
    if is_rising 0 (sort_pins pairing) then paired pairing else monotonicity_violation

abbrev pub budget_of : Option ℕ → ℕ → ℕ → ℕ
budget_of none prev_count curr_count = pairing_scan_budget prev_count curr_count
budget_of (some budget) prev_count curr_count = budget

abbrev pub ended_in : Option Aligned → PairingOutcome
ended_in none = out_of_fuel
ended_in (some st) = assert_monotonic_pairing st.pairing

-- The depth is at most the number of old lines, plus one.
unfoldable pub pair_snapshots : List Str → List Str → Option ℕ → PairingOutcome
pair_snapshots prev_lines curr_lines options = ended_in (
    align_recursive prev_lines curr_lines (length prev_lines + 2) 1 (length prev_lines) 1
      (length curr_lines)
      (record {
        scan_budget = budget_of options (length prev_lines) (length curr_lines);
        pairing = [];
      }))
