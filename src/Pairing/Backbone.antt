-- ===== src/Pairing/Backbone.antt =====
-- The stable backbone of src/snapshot-store/pairing.ts: the pins on every longest increasing chain of
-- least displacement. `Infinity` is `none`; `idx & -idx` is written as arithmetic.
pub mod Kept
use mathlib.Core.List.{reverse}
use dsh_better_edit.Prelude.{
  ℕ, zero, suc, ◌+◌, ◌-◌, ◌*◌, ◌/◌, ◌%◌, Bool, true, false, ◌&&◌, Option, none, some, List, [], ◌∷◌,
  ◌++◌, map, ◌==◌, ltb, leb, if◌then◌else◌, drop, ℤ, pos, neg_of, ltb_int, eq_int, length, get_or,
  set, replicate, max,
}
use dsh_better_edit.Pairing.Pins.{AnchorPin}

-- The rounds of `lowerBound`, with fuel.
unfoldable pub lower_bound_loop : ℕ → List ℤ → ℤ → ℕ → ℕ → ℕ
lower_bound_loop zero values target lo hi = lo
lower_bound_loop (suc fuel) values target lo hi =
    let mid = (lo + hi) / 2 in
    let below = lower_bound_loop fuel values target (mid + 1) hi in
    let above = lower_bound_loop fuel values target lo mid in
    if ltb lo hi then (if ltb_int (get_or values mid (pos 0)) target then below else above) else lo

unfoldable pub lower_bound : List ℤ → ℤ → ℕ
lower_bound values target = lower_bound_loop (suc (length values)) values target 0 (length values)

pub record WeightedPin : Type 0 where
  pub prev_line : ℕ
  pub curr_line : ℤ
  pub displacement : ℕ

-- `[...new Set(values)].sort((a, b) => a - b)`, one value put in its place.
unfoldable pub insert_value : ℤ → List ℤ → List ℤ
insert_value v [] = v ∷ []
insert_value v (x ∷ xs) =
    let rest = insert_value v xs in
    if ltb_int v x then v ∷ x ∷ xs else if eq_int v x then x ∷ xs else x ∷ rest

unfoldable pub sorted_unique : List ℤ → List ℤ
sorted_unique [] = []
sorted_unique (v ∷ vs) = insert_value v (sorted_unique vs)

-- `RankDisplacementIndex`, a Fenwick tree of minima.
pub record RankDisplacementIndex : Type 0 where
  pub sorted : List ℤ
  pub tree : List (Option ℕ)

unfoldable pub new_index : List ℤ → RankDisplacementIndex
new_index values =
    let sorted = sorted_unique values in
    record { sorted = sorted; tree = replicate (length sorted + 1) none }

-- `idx & -idx`, the largest power of two that divides the index.
unfoldable pub low_bit : ℕ → ℕ → ℕ
low_bit zero idx = 0
low_bit (suc fuel) idx = let half = low_bit fuel (idx / 2) in if idx % 2 == 1 then 1 else 2 * half

-- `a < b` with `Infinity`.
abbrev pub less_opt : Option ℕ → Option ℕ → Bool
less_opt none b = false
less_opt (some a) none = true
less_opt (some a) (some b) = ltb a b

unfoldable pub query_loop : ℕ → List (Option ℕ) → ℕ → Option ℕ → Option ℕ
query_loop zero tree idx best = best
query_loop (suc fuel) tree idx best =
    let candidate = get_or tree idx none in
    let rest =
      query_loop fuel tree (idx - low_bit idx idx)
        (if less_opt candidate best then candidate else best) in
    if idx == 0 then best else rest

unfoldable pub query_below : RankDisplacementIndex → ℤ → Option ℕ
query_below index value =
    query_loop (length index.sorted + 1) index.tree (lower_bound index.sorted value) none

unfoldable pub update_loop : ℕ → ℕ → ℕ → ℕ → List (Option ℕ) → List (Option ℕ)
update_loop zero size candidate idx tree = tree
update_loop (suc fuel) size candidate idx tree =
    let better =
      if less_opt (some candidate) (get_or tree idx none)
      then set tree idx (some candidate)
      else tree in
    let rest = update_loop fuel size candidate (idx + low_bit idx idx) better in
    if leb idx size then rest else tree

unfoldable pub update_index : RankDisplacementIndex → ℤ → ℕ → RankDisplacementIndex
update_index index value candidate = record index {
  tree =
      update_loop (length index.sorted + 1) (length index.sorted) candidate
        (lower_bound index.sorted value + 1) index.tree;
}

-- What the patience sort of the pins gives.
pub record Patience : Type 0 where
  pub lengths : List ℕ
  pub tails : List ℤ

abbrev pub put_tail : List ℤ → ℕ → ℤ → List ℤ
put_tail tails slot v = if slot == length tails then tails ++ v ∷ [] else set tails slot v

unfoldable pub patience : List ℤ → List WeightedPin → Patience
patience tails [] = record { lengths = []; tails = tails }
patience tails (pin ∷ pins) =
    let slot = lower_bound tails pin.curr_line in
    let rest = patience (put_tail tails slot pin.curr_line) pins in
    record { lengths = (slot + 1) ∷ rest.lengths; tails = rest.tails }

-- `rankValues[rank - 1]`.
unfoldable pub values_at : ℕ → List WeightedPin → List ℕ → List ℤ
values_at rank [] lengths = []
values_at rank (pin ∷ pins) [] = []
values_at rank (pin ∷ pins) (l ∷ ls) =
    let rest = values_at rank pins ls in if l == rank then pin.curr_line ∷ rest else rest

-- The indexes of `count` ranks from `rank` on.
unfoldable pub indexes_from : ℕ → ℕ → List WeightedPin → List ℕ → List RankDisplacementIndex
indexes_from zero rank pins lengths = []
indexes_from (suc count) rank pins lengths =
    new_index (values_at rank pins lengths) ∷ indexes_from count (suc rank) pins lengths

abbrev pub no_index : RankDisplacementIndex
no_index = record { sorted = []; tree = [] }

abbrev pub predecessor_of : List RankDisplacementIndex → ℕ → ℤ → Option ℕ
predecessor_of indexes rank value =
    if ltb 1 rank then query_below (get_or indexes (rank - 2) no_index) value else none

abbrev pub add_predecessor : ℕ → Option ℕ → ℕ
add_predecessor shortest none = shortest
add_predecessor shortest (some predecessor) = shortest + predecessor

unfoldable pub displacements_of : List RankDisplacementIndex → List WeightedPin → List ℕ → List ℕ
displacements_of indexes [] lengths = []
displacements_of indexes (pin ∷ pins) [] = []
displacements_of indexes (pin ∷ pins) (rank ∷ ranks) =
    let shortest = add_predecessor pin.displacement (predecessor_of indexes rank pin.curr_line) in
    let updated = update_index (get_or indexes (rank - 1) no_index) pin.curr_line shortest in
    shortest ∷ displacements_of (set indexes (rank - 1) updated) pins ranks

pub record Computed : Type 0 where
  pub lengths : List ℕ
  pub displacements : List ℕ

unfoldable pub compute_length_and_min_displacement : List WeightedPin → Computed
compute_length_and_min_displacement pins =
    let sorted = patience [] pins in
    record {
      lengths = sorted.lengths;
      displacements =
          displacements_of (indexes_from (length sorted.tails) 1 pins sorted.lengths) pins
            sorted.lengths;
    }

-- |prevLine - currLine|.
unfoldable pub pin_displacement : AnchorPin → ℕ
pin_displacement pin = (pin.prev_line - pin.curr_line) + (pin.curr_line - pin.prev_line)

abbrev pub weigh : AnchorPin → WeightedPin
weigh pin = record {
  prev_line = pin.prev_line;
  curr_line = pos pin.curr_line;
  displacement = pin_displacement pin;
}

abbrev pub weigh_reversed : AnchorPin → WeightedPin
weigh_reversed pin = record {
  prev_line = pin.prev_line;
  curr_line = neg_of pin.curr_line;
  displacement = pin_displacement pin;
}

-- A pin with the entries of the six arrays at its index.
pub record Scored : Type 0 where
  pub pin : AnchorPin
  pub rank : ℕ
  pub span : ℕ
  pub total : ℕ

-- `span` is `lengths[i] + suffixLengths[i] - 1`, and `total` the displacement through the pin.
unfoldable pub score : List AnchorPin → List ℕ → List ℕ → List ℕ → List ℕ → List Scored
score [] ls ds sls sds = []
score (pin ∷ pins) ls ds sls sds =
    record {
      pin = pin;
      rank = get_or ls 0 0;
      span = get_or ls 0 0 + get_or sls 0 0 - 1;
      total = get_or ds 0 0 + get_or sds 0 0 - pin_displacement pin;
    }
    ∷ score pins (drop 1 ls) (drop 1 ds) (drop 1 sls) (drop 1 sds)

unfoldable pub best_length_of : List Scored → ℕ
best_length_of [] = 0
best_length_of (s ∷ ss) = max s.rank (best_length_of ss)

-- The least total of the pins whose span is the best length.
unfoldable pub best_displacement_of : ℕ → List Scored → Option ℕ
best_displacement_of best [] = none
best_displacement_of best (s ∷ ss) =
    let rest = best_displacement_of best ss in
    if (s.span == best) && less_opt (some s.total) rest then some s.total else rest

abbrev pub is_optimal : ℕ → Option ℕ → Scored → Bool
is_optimal best none s = false
is_optimal best (some least) s = (s.span == best) && (s.total == least)

-- `optimalAtRank.get(rank)`.
unfoldable pub optimal_at_rank : ℕ → Option ℕ → ℕ → List Scored → ℕ
optimal_at_rank best least rank [] = 0
optimal_at_rank best least rank (s ∷ ss) =
    (if is_optimal best least s && (s.rank == rank) then 1 else 0)
    + optimal_at_rank best least rank ss

unfoldable pub stable_of : ℕ → Option ℕ → List Scored → List Scored → List AnchorPin
stable_of best least all [] = []
stable_of best least all (s ∷ ss) =
    let rest = stable_of best least all ss in
    if is_optimal best least s && (optimal_at_rank best least s.rank all == 1)
    then s.pin ∷ rest
    else rest

unfoldable pub find_stable_pin_backbone : List AnchorPin → List AnchorPin
find_stable_pin_backbone pins =
    let forward = compute_length_and_min_displacement (map weigh pins) in
    let backward = compute_length_and_min_displacement (reverse (map weigh_reversed pins)) in
    let scored =
      score pins forward.lengths forward.displacements (reverse backward.lengths)
        (reverse backward.displacements) in
    let best = best_length_of scored in
    stable_of best (best_displacement_of best scored) scored scored
