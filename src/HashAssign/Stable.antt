-- ===== src/HashAssign/Stable.antt =====
-- `nearestNew` and `mapStableHashes` of src/hashline/hash-assign.ts. The maps of the source are
-- functions; `xxh32` is the hash function of the package xxhash-wasm, a parameter.
pub mod Nearest
pub mod Placing
pub mod Origin
pub mod Filling
pub mod Slots
pub mod Laws
pub mod Unchanged
use dsh_better_edit.Prelude.{
  ℕ, zero, suc, ◌+◌, ◌-◌, ◌/◌, ◌<◌, Bool, true, false, ◌&&◌, ◌||◌, not, Option, none, some, List,
  [], ◌∷◌, ◌++◌, map, Str, ◌==◌, ltb, leb, if◌then◌else◌, get_or, get_elem?, set, length, has,
  str_eq, max,
}
use dsh_better_edit.Text.{split_lines}
use dsh_better_edit.HashAssign.{
  Bitset, empty_bits, set_bit, mark_hash_used, mark_all, hash_to_index, hash_probe_stride, canon,
  base_index, Pool, assign_hash, Allocation, allocated, exhausted, or_else,
}

-- The loop of `nearestNew`: the first position whose candidate is not below the target.
unfoldable pub lower_loop : ℕ → List ℕ → ℕ → ℕ → ℕ → ℕ
lower_loop zero candidates target lo hi = lo
lower_loop (suc fuel) candidates target lo hi = elim (ltb lo hi) [
  | false ↦ lo
  | true ↦ elim (ltb (get_or candidates ((lo + hi) / 2) 0) target) [
    | true ↦ lower_loop fuel candidates target ((lo + hi) / 2 + 1) hi
    | false ↦ lower_loop fuel candidates target lo ((lo + hi) / 2)
  ]
]

-- The choice between `left = right - 1` and `right`; -1 is `none`. The comparison
-- `target - candidates[left] <= candidates[right] - target` is written with sums.
unfoldable pub nearer : List ℕ → ℕ → ℕ → Option ℕ
nearer candidates target right =
    if ltb 0 right
      && (leb (length candidates) right
          || leb (target + target) (get_or candidates right 0 + get_or candidates (right - 1) 0))
    then some (right - 1)
    else if ltb right (length candidates)
    then some right
    else none

unfoldable pub nearest_new : List ℕ → ℕ → Option ℕ
nearest_new candidates target =
    nearer candidates target
      (lower_loop (suc (length candidates)) candidates target 0 (length candidates))

-- `oldHashIndex.get(hash)`: a later line wins.
unfoldable pub last_index : Str → List Str → ℕ → Option ℕ
last_index hash [] i = none
last_index hash (h ∷ hs) i = elim (last_index hash hs (suc i)) [
  | some j ↦ some j
  | none ↦ if str_eq hash h then some i else none
]

unfoldable pub removed_indexes : List Str → List Str → List ℕ
removed_indexes [] old_hashes = []
removed_indexes (hash ∷ removed) old_hashes = elim (last_index hash old_hashes 0) [
  | none ↦ removed_indexes removed old_hashes
  | some i ↦ i ∷ removed_indexes removed old_hashes
]

-- `removedIndexes.has(i)`.
unfoldable pub has_index : ℕ → List ℕ → Bool
has_index i [] = false
has_index i (j ∷ js) = if i == j then true else has_index i js

-- `spanEnd`; -1 is `none`.
unfoldable pub span_end : List ℕ → Option ℕ
span_end [] = none
span_end (i ∷ is) = elim (span_end is) [ none ↦ some i | some j ↦ some (max i j) ]

-- An old line with its index and its anchor.
pub record Survivor : Type 0 where
  pub line : Str
  pub index : ℕ
  pub hash : Str

-- The old lines whose index is not removed, in order, from index `i`. The two lists are parallel.
-- There is an old anchor for each old line; a line without one, where the code throws as soon as it finds
-- a place for it, is left out.
unfoldable pub survivors : List Str → List Str → List ℕ → ℕ → List Survivor
survivors [] hashes gone i = []
survivors (line ∷ lines) [] gone i = []
survivors (line ∷ lines) (hash ∷ hashes) gone i =
    let rest = survivors lines hashes gone (suc i) in
    if has_index i gone then rest else record { line = line; index = i; hash = hash } ∷ rest

-- `newByContent.get(key)`: the indices of the new lines with this canon, ascending.
unfoldable pub positions : Str → List Str → ℕ → List ℕ
positions key [] i = []
positions key (line ∷ lines) i =
    if str_eq key (canon line) then i ∷ positions key lines (suc i) else positions key lines (suc i)

-- `list.splice(pos, 1)` without its result.
unfoldable pub remove_at : ℕ → List ℕ → List ℕ
remove_at pos [] = []
remove_at zero (x ∷ xs) = xs
remove_at (suc pos) (x ∷ xs) = x ∷ remove_at pos xs

-- The state of the survivor loop: `newByContent`, `newHashes`, `used` and `hint`.
pub record Placement : Type 0 where
  pub candidates : Str → List ℕ
  pub placed : List (Option Str)
  pub pool : Pool

unfoldable pub mark_used : Pool → Str → Pool
mark_used p hash = elim (hash_to_index hash) [
  | none ↦ p
  | some idx ↦ record {
    used = set_bit p.used idx;
    hint = if ltb p.hint (idx + hash_probe_stride) then idx + hash_probe_stride else p.hint;
  }
]

-- `entry.index > spanEnd ? entry.index + shiftAfterSpan : entry.index`. A target below zero and the
-- target zero select the same candidate.
unfoldable pub target_of : Option ℕ → ℕ → ℕ → ℕ → ℕ
target_of none old_count new_count index = index
target_of (some end) old_count new_count index =
    if ltb end index then index + new_count - old_count else index

unfoldable pub place_at : Placement → Survivor → ℕ → Placement
place_at st s pos =
    let key = canon s.line in
    record {
      candidates = λ k. if str_eq k key then remove_at pos (st.candidates k) else st.candidates k;
      placed = set st.placed (get_or (st.candidates key) pos 0) (some s.hash);
      pool = mark_used st.pool s.hash;
    }

unfoldable pub place : Option ℕ → ℕ → ℕ → Placement → Survivor → Placement
place end old_count new_count st s =
    elim (nearest_new (st.candidates (canon s.line)) (target_of end old_count new_count s.index)) [
      | none ↦ st
      | some pos ↦ place_at st s pos
    ]

unfoldable pub place_all : Option ℕ → ℕ → ℕ → Placement → List Survivor → Placement
place_all end old_count new_count st [] = st
place_all end old_count new_count st (s ∷ ss) =
    place_all end old_count new_count (place end old_count new_count st s) ss

-- `if (newHashes[i])`: an empty anchor counts as none.
abbrev pub truthy : Option Str → Option Str
truthy none = none
truthy (some []) = none
truthy (some (c ∷ hash)) = some (c ∷ hash)

-- The last loop: a line that holds an anchor keeps it, any other is allocated one.
-- There is a slot for each line.
unfoldable pub fill : (Str → ℕ) → Pool → List (Option Str) → List Str → Option (List Str)
fill xxh32 p slots [] = some []
fill xxh32 p [] (line ∷ lines) = some []
fill xxh32 p (some hash ∷ slots) (line ∷ lines) = elim (fill xxh32 p slots lines) [
  | none ↦ none
  | some hashes ↦ some (hash ∷ hashes)
]
fill xxh32 p (none ∷ slots) (line ∷ lines) = elim (assign_hash p (base_index xxh32 line)) [
  | none ↦ none
  | some a ↦ elim (fill xxh32 a.pool slots lines) [
    | none ↦ none
    | some hashes ↦ some (a.hash ∷ hashes)
  ]
]

-- `new Array(n)`: every slot is empty.
unfoldable pub empty_slots : List Str → List (Option Str)
empty_slots [] = []
empty_slots (line ∷ lines) = none ∷ empty_slots lines

-- The bits of the old anchors, then of `blocked`: the reserved and the removed anchors.
unfoldable pub blocked_bits : List Str → List Str → List Str → Bitset
blocked_bits old_hashes reserved removed =
    mark_all (mark_all (mark_all empty_bits old_hashes) reserved) removed

unfoldable pub placement : List Str → List Str → List Str → List Str → List Str → Placement
placement old_lines old_hashes new_lines removed reserved =
    let gone = removed_indexes removed old_hashes in
    place_all (span_end gone) (length old_lines) (length new_lines)
      (record {
        candidates = λ key. positions key new_lines 0;
        placed = empty_slots new_lines;
        pool = record { used = blocked_bits old_hashes reserved removed; hint = 0 };
      })
      (survivors old_lines old_hashes gone 0)

unfoldable pub map_stable_hashes :
    (Str → ℕ) → Str → List Str → Str → List Str → List Str → Option ℕ → Option ℕ → Allocation
map_stable_hashes xxh32 old_content old_hashes new_content removed reserved retired_count
      served_count =
    let new_lines = split_lines new_content in
    let st = placement (split_lines old_content) old_hashes new_lines removed reserved in
    elim (fill xxh32 st.pool (map truthy st.placed) new_lines) [
      | some hashes ↦ allocated hashes
      | none ↦ exhausted (record {
        retired_count = or_else retired_count (length reserved);
        served_count = or_else served_count 0;
      })
    ]
