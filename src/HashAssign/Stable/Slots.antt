-- ===== src/HashAssign/Stable/Slots.antt =====
-- The empty slots that `mapStableHashes` starts from, and the indices of the removed anchors.
use dsh_better_edit.Prelude.{
  ℕ, zero, suc, ◌+◌, ◌≡◌, ◌≢◌, refl, sym, ap, ◌∙◌, true, Option, none, some, List, [], ◌∷◌, Str,
  get_elem?, length, arith, Bool-cases, Option-cases, inl, inr, All, NotIn, Distinct, has, str_eq,
  str_eq_refl, str_eq_sound,
}
use dsh_better_edit.HashAssign.{Bitset}
use dsh_better_edit.HashAssign.Stable.{last_index, removed_indexes, has_index, empty_slots}
use dsh_better_edit.HashAssign.Stable.Placing.{NotPlaced, PlacedDistinct}
use dsh_better_edit.HashAssign.Stable.Filling.{IsMarked, SlotsMarked}

pub get-has : (hs : List Str) (i : ℕ) (h : Str) → get_elem? hs i ≡ some h → has h hs ≡ true
unfolding has
get-has [] i h e = cc
get-has (x ∷ hs) zero h e =
    let same : x ≡ h = ground arith in rw same (ground (arith, str_eq_refl h))
get-has (x ∷ hs) (suc i) h e = ground (arith, get-has hs i h e)

pub length-empty_slots : (lines : List Str) → length (empty_slots lines) ≡ length lines
unfolding empty_slots
length-empty_slots [] = refl
length-empty_slots (line ∷ lines) = ap suc (length-empty_slots lines)

pub empty_slots-get :
    (lines : List Str) (j : ℕ) (h : Str) → get_elem? (empty_slots lines) j ≢ some (some h)
unfolding empty_slots
empty_slots-get [] j h e = cc
empty_slots-get (line ∷ lines) zero h e = ground arith
empty_slots-get (line ∷ lines) (suc j) h e = empty_slots-get lines j h e

pub empty_slots-PlacedDistinct : (lines : List Str) → PlacedDistinct (empty_slots lines)
unfolding empty_slots
empty_slots-PlacedDistinct [] = tt
empty_slots-PlacedDistinct (line ∷ lines) = empty_slots-PlacedDistinct lines

empty_slots-NotPlaced : (lines : List Str) (h : Str) → NotPlaced h (empty_slots lines)
unfolding empty_slots
empty_slots-NotPlaced [] h = tt
empty_slots-NotPlaced (line ∷ lines) h = empty_slots-NotPlaced lines h

pub empty_slots-AllNotPlaced : (lines hs : List Str) → All (λ h. NotPlaced h (empty_slots lines)) hs
empty_slots-AllNotPlaced lines [] = tt
empty_slots-AllNotPlaced lines (h ∷ hs) =
    (empty_slots-NotPlaced lines h, empty_slots-AllNotPlaced lines hs)

pub SlotsMarked-intro :
    (bits : Bitset) (slots : List (Option Str))
    → ((j : ℕ) (h : Str) → get_elem? slots j ≡ some (some h) → IsMarked bits h)
    → SlotsMarked bits slots
SlotsMarked-intro bits [] f = tt
SlotsMarked-intro bits (none ∷ slots) f = SlotsMarked-intro bits slots (λ j h e. f (suc j) h e)
SlotsMarked-intro bits (some x ∷ slots) f =
    (f 0 x refl, SlotsMarked-intro bits slots (λ j h e. f (suc j) h e))

-- A distinct list's member is found at its one index.
last_index-missing : (h : Str) (hs : List Str) (i : ℕ) → NotIn h hs → last_index h hs i ≡ none
unfolding last_index
last_index-missing h [] i p = refl
last_index-missing h (x ∷ hs) i p = elim (Bool-cases (str_eq h x)) [
  | inl same ↦ absurd (p.0 (str_eq_sound h x same))
  | inr other ↦ ground (arith, last_index-missing h hs (suc i) p.1, other)
]

pub last_index-found :
    (h : Str) (hs : List Str) (i o : ℕ)
    → Distinct hs
    → get_elem? hs o ≡ some h
    → last_index h hs i ≡ some (i + o)
unfolding last_index
last_index-found h [] i o d e = cc
last_index-found h (x ∷ hs) i zero d e =
    let same : x ≡ h = ground arith in
    let gone : last_index h hs (suc i) ≡ none = rw (← same) (last_index-missing x hs (suc i) d.0) in
    rw (gone, same) (ground (arith, str_eq_refl h))
last_index-found h (x ∷ hs) i (suc o) d e = ground (arith, last_index-found h hs (suc i) o d.1 e)

pub removed_indexes-has :
    (r : Str) (removed old_hashes : List Str) (o : ℕ)
    → has r removed ≡ true
    → last_index r old_hashes 0 ≡ some o
    → has_index o (removed_indexes removed old_hashes) ≡ true
unfolding has removed_indexes has_index
removed_indexes-has r [] old_hashes o h e = cc
removed_indexes-has r (x ∷ removed) old_hashes o h e = elim (Bool-cases (str_eq r x)) [
  | inl same ↦
      let at : last_index x old_hashes 0 ≡ some o =
        ap (λ t. last_index t old_hashes 0) (sym (str_eq_sound r x same)) ∙ e in
      ground (arith, at)
  | inr other ↦ elim (Option-cases (last_index x old_hashes 0)) [
    | inl missing ↦ ground (arith, missing, removed_indexes-has r removed old_hashes o)
    | inr (k, found) ↦ ground (arith, found, removed_indexes-has r removed old_hashes o)
  ]
]
