-- ===== src/ServedGuard.antt =====
-- src/hashline/served-guard.ts: the two tiers that only warn about anchor-shaped replacement lines.
pub mod Openings
pub mod Tiers
use dsh_better_edit.Prelude.{
  ℕ, suc, ◌+◌, Bool, true, false, ◌&&◌, ◌||◌, Option, none, some, List, [], ◌∷◌, ◌++◌, Str, ◌==◌,
  if◌then◌else◌, str_eq, get_elem?,
}
use dsh_better_edit.HashAssign.{canon, hash_sep, matches_hash_re}

pub record Shape : Type 0 where
  pub anchor : Str
  pub tail : Str

-- An anchor, the separator and the tail.
unfoldable pub shape_of : Str → Option Shape
shape_of (a ∷ b ∷ c ∷ d ∷ s) =
    if (d == hash_sep) && matches_hash_re (a ∷ b ∷ c ∷ [])
    then some (record { anchor = a ∷ b ∷ c ∷ []; tail = s })
    else none
shape_of _ = none

-- One leading diff marker is dropped.
abbrev pub drop_marker : Str → Str
drop_marker [] = []
drop_marker (c ∷ s) = if (c == b'+') || (c == b'-') || (c == 32) then s else c ∷ s

unfoldable pub anchor_shape_from_line : Str → Option Shape
anchor_shape_from_line line = shape_of (drop_marker line)

pub record ServedAnchorEntry : Type 0 where
  pub served_line : ℕ
  pub canon : Str

-- `servedCanons[pos] ?? null`.
abbrev pub canon_slot : Option (Option Str) → Option Str
canon_slot (some (some c)) = some c
canon_slot slot = none

-- `byAnchor.get(anchor)`: the served positions of the anchor with a canon, from position `pos`.
unfoldable pub entries_of : Str → List (Option Str) → List (Option Str) → ℕ → List ServedAnchorEntry
entries_of anchor [] canons pos = []
entries_of anchor (none ∷ served) canons pos = entries_of anchor served canons (suc pos)
entries_of anchor (some h ∷ served) canons pos =
    let rest = entries_of anchor served canons (suc pos) in
    elim (canon_slot (get_elem? canons pos)) [
      | none ↦ rest
      | some c ↦
          if str_eq h anchor then record { served_line = suc pos; canon = c } ∷ rest else rest
    ]

pub record Mismatch : Type 0 where
  pub k : ℕ
  pub line : ℕ
  pub anchor : Str
  pub served_line : ℕ

unfoldable pub any_canon : Str → List ServedAnchorEntry → Bool
any_canon c [] = false
any_canon c (e ∷ es) = if str_eq e.canon c then true else any_canon c es

-- The report on one candidate that opens with a served anchor.
abbrev pub judge : ℕ → ℕ → Shape → List ServedAnchorEntry → List Mismatch
judge start index shape [] = []
judge start index shape (e ∷ es) =
    if any_canon (canon shape.tail) (e ∷ es)
    then []
    else record {
      k = suc index;
      line = start + index;
      anchor = shape.anchor;
      served_line = e.served_line;
    }
      ∷ []

unfoldable pub mismatch_loop :
    List Str → List (Option Str) → List (Option Str) → ℕ → ℕ → List Mismatch
mismatch_loop [] served canons start index = []
mismatch_loop (line ∷ lines) served canons start index =
    let rest = mismatch_loop lines served canons start (suc index) in
    elim (anchor_shape_from_line line) [
      | none ↦ rest
      | some shape ↦ judge start index shape (entries_of shape.anchor served canons 0) ++ rest
    ]

unfoldable pub find_served_prefix_mismatches :
    List Str → List (Option Str) → List (Option Str) → ℕ → List Mismatch
find_served_prefix_mismatches lines served canons start = mismatch_loop lines served canons start 0

pub record NeverServed : Type 0 where
  pub k : ℕ
  pub line : ℕ
  pub anchor : Str

-- `servedSet.has(anchor)`.
unfoldable pub was_served : Str → List (Option Str) → Bool
was_served anchor [] = false
was_served anchor (none ∷ served) = was_served anchor served
was_served anchor (some h ∷ served) = if str_eq h anchor then true else was_served anchor served

unfoldable pub never_served_loop : List Str → List (Option Str) → ℕ → ℕ → List NeverServed
never_served_loop [] served start index = []
never_served_loop (line ∷ lines) served start index =
    let rest = never_served_loop lines served start (suc index) in
    elim (anchor_shape_from_line line) [
      | none ↦ rest
      | some shape ↦
          if was_served shape.anchor served
          then rest
          else record { k = suc index; line = start + index; anchor = shape.anchor } ∷ rest
    ]

unfoldable pub find_never_served_anchor_shapes : List Str → List (Option Str) → ℕ → List NeverServed
find_never_served_anchor_shapes lines served start = never_served_loop lines served start 0
