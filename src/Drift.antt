-- ===== src/Drift.antt =====
-- src/session-view.ts: `computeDrift`, which finds served lines that changed outside an edit, shows where they
-- were, and leaves out those that only got a new anchor. A map of counts is a list with repetitions,
-- and a set of positions an ascending list.
pub mod Rows
pub mod Survivors
pub mod Range
pub mod Noticed
use dsh_better_edit.Prelude.{
  ℕ, zero, suc, ◌+◌, ◌-◌, Bool, true, false, ◌&&◌, ◌||◌, not, Option, none, some, List, [], ◌∷◌,
  ◌++◌, Str, ltb, leb, ◌==◌, if◌then◌else◌, length, get_elem?, take, drop, map, str_eq, has, min,
  max, ℤ, pos, negsuc, sub_ℕ, ltb_int, ◌+ℤ◌,
}
use dsh_better_edit.HashAssign.{hash_space, idx_to_hash, canon}
use dsh_better_edit.AnchorPipeline.{line_at}
use dsh_better_edit.AnchorPipeline.Span.{ResolvedRange}
use dsh_better_edit.AnchorPipeline.Leases.{Slot}
use dsh_better_edit.AnchorPipeline.Verify.{served_positions_of}

-- `range.delta`.
abbrev pub delta_of : ResolvedRange → ℤ
delta_of r = sub_ℕ r.replacement_count r.replaced_count

pub record DriftInput : Type 0 where
  pub served : List Slot
  pub result_hashes : List Str
  pub result_lines : List Str
  pub range : ResolvedRange
  pub reported : List Str
  pub cap : ℕ
  pub served_canons : List (Option Str)

-- `DRIFT_EPISODE_PREFIX`.
abbrev pub drift_episode_prefix : ℕ
drift_episode_prefix = b'#'

-- `driftEpisodeKey`.
unfoldable pub drift_episode_key : ℤ → Str
drift_episode_key (negsuc n) = []
drift_episode_key (pos n) = if leb hash_space n then [] else drift_episode_prefix ∷ idx_to_hash n

-- `currentPosOfHash.get(hash)`, the last index; `i` is the index of the first hash.
unfoldable pub current_index : Str → ℕ → List Str → Option ℕ
current_index hash i [] = none
current_index hash i (h ∷ hs) = elim (current_index hash (suc i) hs) [
  | some later ↦ some later
  | none ↦ if str_eq h hash then some i else none
]

abbrev pub survives : List Str → Slot → Bool
survives surviving none = false
survives surviving (some hash) = has hash surviving

-- `nearestSurvivingPosition` upwards: the hash of the first survivor.
unfoldable pub first_survivor : List Str → List Slot → Option Str
first_survivor surviving [] = none
first_survivor surviving (none ∷ slots) = first_survivor surviving slots
first_survivor surviving (some hash ∷ slots) =
    let rest = first_survivor surviving slots in if has hash surviving then some hash else rest

-- Downwards: the hash of the last survivor before the position.
unfoldable pub last_survivor : List Str → List Slot → ℕ → Option Str
last_survivor surviving slots zero = none
last_survivor surviving [] (suc n) = none
last_survivor surviving (slot ∷ slots) (suc n) = elim (last_survivor surviving slots n) [
  | some later ↦ some later
  | none ↦ if survives surviving slot then slot else none
]

abbrev pub position_or_zero : Option ℕ → ℕ
position_or_zero none = 0
position_or_zero (some i) = i

-- `currentPositionOfDrifted`; a survivor always has a current position.
unfoldable pub current_position_of_drifted : List Slot → List Str → ℕ → ℤ → ℤ
current_position_of_drifted served result_hashes served_index delta =
    elim (last_survivor result_hashes served served_index) [
      | some below ↦ pos (position_or_zero (current_index below 0 result_hashes) + 1)
      | none ↦ elim (first_survivor result_hashes (drop (served_index + 1) served)) [
        | some above ↦ pos (position_or_zero (current_index above 0 result_hashes)) +ℤ negsuc 0
        | none ↦ pos served_index +ℤ delta
      ]
    ]

-- `take(c)`: one canon less, if there is one.
pub record Taken : Type 0 where
  pub took : Bool
  pub remaining : List Str

unfoldable pub take_canon : Str → List Str → Taken
take_canon c [] = record { took = false; remaining = [] }
take_canon c (d ∷ ds) =
    let rest = take_canon c ds in
    if str_eq d c
    then record { took = true; remaining = ds }
    else record { took = rest.took; remaining = d ∷ rest.remaining }

abbrev pub is_outside : ℤ → ℤ → ℕ → Bool
is_outside from to i = ltb_int (pos i) from || ltb_int to (pos i)

-- The canons of the lines outside the edited span.
unfoldable pub canons_outside : ℤ → ℤ → ℕ → List Str → List Str
canons_outside from to i [] = []
canons_outside from to i (line ∷ lines) =
    let rest = canons_outside from to (suc i) lines in
    if is_outside from to i then canon line ∷ rest else rest

-- The lines that kept their anchor use up their canons; `p` is the position of the first slot.
unfoldable pub pre_consume : DriftInput → ℕ → ℕ → ℕ → List Slot → List Str → List Str
pre_consume input from to p [] remaining = remaining
pre_consume input from to p (none ∷ slots) remaining =
    pre_consume input from to (suc p) slots remaining
pre_consume input from to p (some hash ∷ slots) remaining =
    pre_consume input from to (suc p) slots (
      if is_outside (pos from) (pos to) p
      then elim (current_index hash 0 input.result_hashes) [
        | none ↦ remaining
        | some current ↦
            (take_canon (canon (line_at input.result_lines current)) remaining).remaining
      ]
      else remaining)

unfoldable pub has_canons : List (Option Str) → Bool
has_canons [] = false
has_canons (none ∷ cs) = has_canons cs
has_canons (some c ∷ cs) = true

abbrev pub max_int : ℤ → ℤ → ℤ
max_int a b = if ltb_int a b then b else a

-- `buildRotatedSurvivorCheck`: the canons left, none where the check is off.
unfoldable pub rotated_survivors : DriftInput → ℕ → ℕ → List Str
rotated_survivors input from to =
    if has_canons input.served_canons
    then pre_consume input from to 0 input.served (
        canons_outside (pos from)
          (max_int (pos from +ℤ negsuc 0) (pos to +ℤ (delta_of input.range))) 0 input.result_lines)
    else []

-- The check of a position.
abbrev pub check_rotated : Option (Option Str) → List Str → Taken
check_rotated none remaining = record { took = false; remaining = remaining }
check_rotated (some none) remaining = record { took = false; remaining = remaining }
check_rotated (some (some c)) remaining = take_canon c remaining

-- What the loop over the served slots counts.
pub record Counted : Type 0 where
  pub remaining : List Str
  pub total : ℕ
  pub unshown : ℕ
  pub any_not_reported : Bool
  pub drifted : List ℕ

abbrev pub in_file : DriftInput → ℤ → Option ℕ
in_file input (negsuc n) = none
in_file input (pos n) =
    if ltb n (length input.result_hashes) && ltb n (length input.result_lines) then some n else none

abbrev pub add_position : Option ℕ → Counted → Counted
add_position none c = record c { unshown = suc c.unshown }
add_position (some n) c = record c { drifted = c.drifted ++ n ∷ [] }

-- A line that drifted.
unfoldable pub count_drifted : DriftInput → ℕ → Counted → Counted
count_drifted input p c =
    let current =
      current_position_of_drifted input.served input.result_hashes p (delta_of input.range) in
    add_position (in_file input current) (record c {
      total = suc c.total;
      any_not_reported = c.any_not_reported || not (has (drift_episode_key current) input.reported);
    })

abbrev pub is_checked : DriftInput → ℕ → ℕ → ℕ → Str → Bool
is_checked input from to p hash =
    is_outside (pos from) (pos to) p && not (has hash input.result_hashes)

-- A slot with an anchor, at the position `p`.
unfoldable pub count_slot : DriftInput → ℕ → ℕ → ℕ → Str → Counted → Counted
count_slot input from to p hash c =
    let rotated = check_rotated (get_elem? input.served_canons p) c.remaining in
    if is_checked input from to p hash
    then (if rotated.took
        then record c { remaining = rotated.remaining }
        else count_drifted input p (record c { remaining = rotated.remaining }))
    else c

unfoldable pub count_slots : DriftInput → ℕ → ℕ → ℕ → List Slot → Counted → Counted
count_slots input from to p [] c = c
count_slots input from to p (none ∷ slots) c = count_slots input from to (suc p) slots c
count_slots input from to p (some hash ∷ slots) c =
    count_slots input from to (suc p) slots (count_slot input from to p hash c)

-- The range in the served mirror, from both anchors if each was served once.
pub record ServedRange : Type 0 where
  pub from : ℕ
  pub to : ℕ

abbrev pub ordered_range : ℕ → ℕ → ServedRange
ordered_range a b = record { from = min a b; to = max a b }

abbrev pub range_by : List ℕ → List ℕ → ResolvedRange → ServedRange
range_by [] ends r = ordered_range (r.start_line - 1) (r.end_line - 1)
range_by (s ∷ t ∷ starts) ends r = ordered_range (r.start_line - 1) (r.end_line - 1)
range_by (s ∷ []) [] r = ordered_range (r.start_line - 1) (r.end_line - 1)
range_by (s ∷ []) (e ∷ f ∷ ends) r = ordered_range (r.start_line - 1) (r.end_line - 1)
range_by (s ∷ []) (e ∷ []) r = ordered_range s e

unfoldable pub served_range : DriftInput → ServedRange
served_range input =
    range_by (served_positions_of input.served input.range.start_hash 0)
      (served_positions_of input.served input.range.end_hash 0) input.range

unfoldable pub count_drift : DriftInput → Counted
count_drift input =
    let r = served_range input in
    count_slots input r.from r.to 0 input.served (record {
      remaining = rotated_survivors input r.from r.to;
      total = 0;
      unshown = 0;
      any_not_reported = false;
      drifted = [];
    })

-- A position put into an ascending list, once.
unfoldable pub insert_position : ℕ → List ℕ → List ℕ
insert_position w [] = w ∷ []
insert_position w (x ∷ xs) =
    let rest = insert_position w xs in
    if ltb w x then w ∷ x ∷ xs else if w == x then x ∷ xs else x ∷ rest

abbrev pub insert_if : Bool → ℕ → List ℕ → List ℕ
insert_if true w ws = insert_position w ws
insert_if false w ws = ws

-- The positions next to the drifted ones, and these.
unfoldable pub window_of : ℕ → List ℕ → List ℕ
window_of count [] = []
window_of count (p ∷ ps) =
    insert_if (ltb 0 p && ltb (p - 1) count) (p - 1)
      (insert_if (ltb p count) p (insert_if (ltb (p + 1) count) (p + 1) (window_of count ps)))

unfoldable pub has_position : ℕ → List ℕ → Bool
has_position w [] = false
has_position w (x ∷ xs) = if x == w then true else has_position w xs

pub record DriftRow : Type 0 where
  pub position : ℕ
  pub hash : Option Str
  pub content : Option Str
  pub drifted : Bool

abbrev pub drift_row : DriftInput → List ℕ → ℕ → DriftRow
drift_row input drifted position = record {
  position = position;
  hash = get_elem? input.result_hashes position;
  content = get_elem? input.result_lines position;
  drifted = has_position position drifted;
}

-- `DriftNoticeResult`; `more` is the count of the line that says how many rows are hidden.
pub record DriftNotice : Type 0 where
  pub rows : List DriftRow
  pub total : ℕ
  pub more : ℕ
  pub all_already_reported : Bool

abbrev pub notice_of : DriftInput → Counted → List ℕ → DriftNotice
notice_of input c window = record {
  rows = map (drift_row input c.drifted) (take input.cap window);
  total = c.total;
  more = c.unshown + (length window - length (take input.cap window));
  all_already_reported = false;
}

unfoldable pub compute_drift : DriftInput → Option DriftNotice
compute_drift input =
    let c = count_drift input in
    if c.total == 0
    then none
    else if not c.any_not_reported
    then some (record { rows = []; total = c.total; more = 0; all_already_reported = true })
    else some (notice_of input c (window_of (length input.result_lines) c.drifted))
