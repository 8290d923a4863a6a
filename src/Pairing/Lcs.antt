-- ===== src/Pairing/Lcs.antt =====
-- `computeLCSPaths` of src/snapshot-store/pairing.ts: the tables of a leaf and the traceback. A table is
-- the list of its rows, each filled from the right like the loops do.
pub mod Tables
pub mod Matching
pub mod Regions
pub mod Same
pub mod Differ
pub mod Unique
use dsh_better_edit.Prelude.{
  ℕ, zero, suc, ◌+◌, ◌-◌, Bool, true, false, ◌&&◌, Option, none, some, List, [], ◌∷◌, Str, ◌==◌,
  ltb, if◌then◌else◌, str_eq, get_or, drop, length, replicate, map, max,
}
use dsh_better_edit.Pairing.Pins.{AnchorPin, interval}

abbrev pub maximal_pairing_cap : ℕ
maximal_pairing_cap = 2

-- A row of `suffix`, from the row below.
unfoldable pub suffix_row : Str → List Str → List ℕ → List ℕ
suffix_row key [] below = 0 ∷ []
suffix_row key (c ∷ cs) below =
    let rest = suffix_row key cs (drop 1 below) in
    (if str_eq key c then get_or below 1 0 + 1 else max (get_or below 0 0) (get_or rest 0 0)) ∷ rest

unfoldable pub suffix_table : List Str → List Str → List (List ℕ)
suffix_table [] curr_keys = replicate (length curr_keys + 1) 0 ∷ []
suffix_table (key ∷ keys) curr_keys =
    let below = suffix_table keys curr_keys in suffix_row key curr_keys (get_or below 0 []) ∷ below

abbrev pub at : List (List ℕ) → ℕ → ℕ → ℕ
at table i j = get_or (get_or table i []) j 0

-- One cell of `pairingCount`; what is added comes before what is taken away.
unfoldable pub count_cell : Bool → ℕ → ℕ → ℕ → ℕ → ℕ → ℕ → ℕ → ℕ
count_cell same target diagonal down right diagonal_count down_count right_count =
    if target == 0
    then 1
    else (let total =
          (if down == target then down_count else 0)
          + (if right == target then right_count else 0)
          + (if same && (diagonal + 1 == target) then diagonal_count else 0)
          - (if diagonal == target then diagonal_count else 0) in
        if ltb maximal_pairing_cap total then maximal_pairing_cap else total)

-- A row of `pairingCount`, from its row of `suffix` and the rows below.
unfoldable pub count_row : Str → List Str → List ℕ → List ℕ → List ℕ → List ℕ
count_row key [] suffix suffix_below below = 1 ∷ []
count_row key (c ∷ cs) suffix suffix_below below =
    let rest = count_row key cs (drop 1 suffix) (drop 1 suffix_below) (drop 1 below) in
    count_cell (str_eq key c) (get_or suffix 0 0) (get_or suffix_below 1 0)
      (get_or suffix_below 0 0) (get_or suffix 1 0) (get_or below 1 0) (get_or below 0 0)
      (get_or rest 0 0)
    ∷ rest

-- `suffix` is the table of the same lines.
unfoldable pub count_table : List Str → List Str → List (List ℕ) → List (List ℕ)
count_table [] curr_keys suffix = replicate (length curr_keys + 1) 1 ∷ []
count_table (key ∷ keys) curr_keys suffix =
    let below = count_table keys curr_keys (drop 1 suffix) in
    count_row key curr_keys (get_or suffix 0 []) (get_or suffix 1 []) (get_or below 0 []) ∷ below

-- The traceback from the cell `i`, `j`, with fuel for its rounds.
unfoldable pub trace : List Str → List Str → List (List ℕ) → ℕ → ℕ → ℕ → List AnchorPin
trace prev_keys curr_keys suffix zero i j = []
trace prev_keys curr_keys suffix (suc fuel) i j =
    let target = at suffix i j in
    let diagonal = at suffix (suc i) (suc j) in
    let both = trace prev_keys curr_keys suffix fuel (suc i) (suc j) in
    let skip_prev = trace prev_keys curr_keys suffix fuel (suc i) j in
    let skip_curr = trace prev_keys curr_keys suffix fuel i (suc j) in
    if ltb i (length prev_keys) && ltb j (length curr_keys)
    then (if target == 0
        then []
        else if str_eq (get_or prev_keys i []) (get_or curr_keys j []) && (diagonal + 1 == target)
        then record { prev_line = i; curr_line = j } ∷ both
        else if diagonal == target
        then both
        else if at suffix (suc i) j == target
        then skip_prev
        else skip_curr)
    else []

pub record LcsAlignment : Type 0 where
  pub is_unique : Bool
  pub pairs : List AnchorPin

-- The alignment of the lines of an interval, counted from 0.
unfoldable pub lcs_of : List Str → List Str → LcsAlignment
lcs_of prev_keys curr_keys =
    let suffix = suffix_table prev_keys curr_keys in
    let unique = at (count_table prev_keys curr_keys suffix) 0 0 == 1 in
    record {
      is_unique = unique;
      pairs =
          if unique
          then trace prev_keys curr_keys suffix (length prev_keys + length curr_keys) 0 0
          else [];
    }

abbrev pub shift_pin : ℕ → ℕ → AnchorPin → AnchorPin
shift_pin p_start c_start pin = record {
  prev_line = p_start + pin.prev_line;
  curr_line = c_start + pin.curr_line;
}

unfoldable pub compute_lcs_paths : List Str → List Str → ℕ → ℕ → ℕ → ℕ → LcsAlignment
compute_lcs_paths prev_lines curr_lines p_start p_end c_start c_end =
    let aligned = lcs_of (interval prev_lines p_start p_end) (interval curr_lines c_start c_end) in
    record { is_unique = aligned.is_unique; pairs = map (shift_pin p_start c_start) aligned.pairs }
