-- ===== src/HashAssign/Stable/Unchanged.antt =====
-- A content that did not change keeps every anchor, and `mapStableHashes` succeeds while there is room.
use mathlib.Core.List.{append_assoc}
use dsh_better_edit.Prelude.{
  All, ◌≢◌, ℕ, zero, suc, ◌+◌, ◌/◌, ◌<◌, ◌≤◌, ◌≡◌, refl, sym, ap, ◌∙◌, Option, none, some, List, [],
  ◌∷◌, ◌++◌, map, Str, if◌then◌else◌, get_or, set, length, arith, Bool-cases, inl, inr, All, str_eq,
  str_eq_refl, ltb, ltb→lt, length-append,
}
use dsh_better_edit.Text.{split_lines}
use dsh_better_edit.HashAssign.{Pool, canon, allocated}
use dsh_better_edit.HashAssign.Stable.{
  lower_loop, nearer, nearest_new, removed_indexes, has_index, span_end, Survivor, survivors,
  positions, remove_at, Placement, target_of, place_at, place, place_all, empty_slots, placement,
  fill, truthy, map_stable_hashes,
}

lower_loop-zero :
    (fuel : ℕ) (cs : List ℕ) (target hi : ℕ)
    → ((m : ℕ) → m < hi → target ≤ get_or cs m 0)
    → lower_loop fuel cs target 0 hi ≡ 0
unfolding lower_loop
lower_loop-zero zero cs target hi h = refl
lower_loop-zero (suc fuel) cs target hi h = elim (Bool-cases (ltb 0 hi)) [
  | inr empty ↦ rw (empty, lower_loop) refl
  | inl more ↦
      let inside : (0 + hi) / 2 < hi = omega (arith, ltb→lt 0 hi more) in
      elim (Bool-cases (ltb (get_or cs ((0 + hi) / 2) 0) target)) [
        | inl low ↦ absurd (omega (arith, ltb→lt _ _ low, h ((0 + hi) / 2) inside))
        | inr high ↦
            rw (more, high, lower_loop)
              (lower_loop-zero fuel cs target ((0 + hi) / 2) (λ m b. h m (omega arith)))
      ]
]

All-get_or_le :
    (t : ℕ) (xs : List ℕ) (m : ℕ) → All (λ x. t ≤ x) xs → m < length xs → t ≤ get_or xs m 0
All-get_or_le t [] m h b = elim b [ ]
All-get_or_le t (x ∷ xs) zero h b = h.0
All-get_or_le t (x ∷ xs) (suc m) h b = All-get_or_le t xs m h.1 (omega arith)

-- The first candidate is chosen where it is the target.
nearest_new-first : (t : ℕ) (cs : List ℕ) → All (λ x. t ≤ x) cs → nearest_new (t ∷ cs) t ≡ some 0
unfolding nearest_new nearer
nearest_new-first t cs h =
    let all_above : All (λ x. t ≤ x) (t ∷ cs) = (omega arith, h) in
    rw
      (lower_loop-zero (suc (suc (length cs))) (t ∷ cs) t (suc (length cs))
        (λ m b. All-get_or_le t (t ∷ cs) m all_above b))
      (ground arith)

positions-above :
    (key : Str) (lines : List Str) (t i : ℕ) → t ≤ i → All (λ x. t ≤ x) (positions key lines i)
unfolding positions
positions-above key [] t i h = tt
positions-above key (line ∷ lines) t i h = elim (Bool-cases (str_eq key (canon line))) [
  | inl same ↦ rw (same, positions) (h, positions-above key lines t (suc i) (omega arith))
  | inr other ↦ rw (other, positions) (positions-above key lines t (suc i) (omega arith))
]

positions_self :
    (line : Str) (lines : List Str) (i : ℕ)
    → positions (canon line) (line ∷ lines) i ≡ i ∷ positions (canon line) lines (suc i)
unfolding positions
positions_self line lines i = rw (str_eq_refl (canon line)) refl

positions-splice :
    (key line : Str) (lines : List Str) (i : ℕ)
    → (if str_eq key (canon line)
        then remove_at 0 (positions key (line ∷ lines) i)
        else positions key (line ∷ lines) i)
      ≡ positions key lines (suc i)
unfolding positions remove_at
positions-splice key line lines i = ground arith

set-middle :
    (pre slots : List (Option Str)) (old new : Option Str) (i : ℕ)
    → length pre ≡ i
    → set (pre ++ old ∷ slots) i new ≡ pre ++ new ∷ slots
set-middle [] slots old new zero h = refl
set-middle [] slots old new (suc i) h = absurd (omega arith)
set-middle (x ∷ pre) slots old new zero h = absurd (omega arith)
set-middle (x ∷ pre) slots old new (suc i) h =
    ap (λ t. x ∷ t) (set-middle pre slots old new i (omega arith))

-- A turn of the loop, where the lines before `i` have their anchors.
record Turn (pre : List (Option Str)) (lines : List Str) (i : ℕ) (st : Placement) : Type 0 where
  at : length pre ≡ i
  cands : (k : Str) → st.candidates k ≡ positions k lines i
  slots : st.placed ≡ pre ++ empty_slots lines

empty_slots-cons :
    (pre : List (Option Str)) (line : Str) (lines : List Str)
    → pre ++ empty_slots (line ∷ lines) ≡ pre ++ none ∷ empty_slots lines
unfolding empty_slots
empty_slots-cons pre line lines = refl

place-Turn :
    (m n : ℕ) (pre : List (Option Str)) (line : Str) (lines : List Str) (i : ℕ) (h : Str)
    (st : Placement)
    → Turn pre (line ∷ lines) i st
    → Turn
        (pre ++ some h ∷ [])
        lines
        (suc i)
        (place none m n st (record { line = line; index = i; hash = h }))
unfolding place target_of
place-Turn m n pre line lines i h st turn =
    let s : Survivor = record { line = line; index = i; hash = h } in
    let head : st.candidates (canon line) ≡ i ∷ positions (canon line) lines (suc i) =
      turn.cands (canon line) ∙ positions_self line lines i in
    let first : nearest_new (st.candidates (canon line)) i ≡ some 0 =
      ap (λ t. nearest_new t i) head
      ∙ nearest_new-first i (positions (canon line) lines (suc i))
          (positions-above (canon line) lines i (suc i) (omega arith)) in
    rw (first, place)
      (record {
        at = omega (arith, length-append pre (some h ∷ []), turn.at);
        cands = λ k.
            unfold place_at in
            (ap (λ t. if str_eq k (canon line) then remove_at 0 t else t) (turn.cands k)
              ∙ positions-splice k line lines i);
        slots =
            unfold place_at in
            (ap (λ t. set st.placed (get_or t 0 0) (some h)) head
              ∙ ap (λ t. set t i (some h)) (turn.slots ∙ empty_slots-cons pre line lines)
              ∙ set-middle pre (empty_slots lines) none (some h) i turn.at
              ∙ sym (append_assoc pre (some h ∷ []) (empty_slots lines)));
      })

survivors-cons :
    (line : Str) (lines : List Str) (h : Str) (hs : List Str) (i : ℕ)
    → survivors (line ∷ lines) (h ∷ hs) [] i
      ≡ record { line = line; index = i; hash = h } ∷ survivors lines hs [] (suc i)
unfolding survivors has_index
survivors-cons line lines h hs i = refl

place_all-unchanged :
    (m n : ℕ) (pre : List (Option Str)) (lines hs : List Str) (i : ℕ) (st : Placement)
    → length hs ≡ length lines
    → Turn pre lines i st
    → (place_all none m n st (survivors lines hs [] i)).placed ≡ pre ++ map some hs
unfolding place_all
place_all-unchanged m n pre [] [] i st e turn = unfold survivors empty_slots in turn.slots
place_all-unchanged m n pre [] (h ∷ hs) i st e turn = absurd (omega arith)
place_all-unchanged m n pre (line ∷ lines) [] i st e turn = absurd (omega arith)
place_all-unchanged m n pre (line ∷ lines) (h ∷ hs) i st e turn =
    ap (λ t. (place_all none m n st t).placed) (survivors-cons line lines h hs i)
    ∙ place_all-unchanged m n (pre ++ some h ∷ []) lines hs (suc i)
        (place none m n st (record { line = line; index = i; hash = h })) (omega arith)
        (place-Turn m n pre line lines i h st turn)
    ∙ append_assoc pre (some h ∷ []) (map some hs)

placement-unchanged :
    (lines hs reserved : List Str)
    → length hs ≡ length lines
    → (placement lines hs lines [] reserved).placed ≡ map some hs
unfolding placement removed_indexes span_end
placement-unchanged lines hs reserved e =
    place_all-unchanged _ _ [] lines hs 0 _ e
      (record { at = refl; cands = λ k. refl; slots = refl })

fill-full :
    (xxh32 : Str → ℕ) (p : Pool) (hs lines : List Str)
    → length hs ≡ length lines
    → fill xxh32 p (map some hs) lines ≡ some hs
unfolding fill
fill-full xxh32 p [] [] e = refl
fill-full xxh32 p [] (line ∷ lines) e = absurd (omega arith)
fill-full xxh32 p (h ∷ hs) [] e = absurd (omega arith)
fill-full xxh32 p (h ∷ hs) (line ∷ lines) e =
    rw (fill-full xxh32 p hs lines (omega arith), fill) refl

truthy-some : (hs : List Str) → All (λ h. h ≢ []) hs → map truthy (map some hs) ≡ map some hs
truthy-some [] a = refl
truthy-some ([] ∷ hs) (n, a) = absurd (n refl)
truthy-some ((c ∷ h) ∷ hs) (n, a) = ap (λ t. some (c ∷ h) ∷ t) (truthy-some hs a)

-- A content that did not change, with one old anchor for each line, none of them empty and none removed,
-- keeps every anchor at its line.
pub map_stable_hashes-unchanged :
    (xxh32 : Str → ℕ) (content : Str) (hs reserved : List Str) (rc sc : Option ℕ)
    → length hs ≡ length (split_lines content)
    → All (λ h. h ≢ []) hs
    → map_stable_hashes xxh32 content hs content [] reserved rc sc ≡ allocated hs
unfolding map_stable_hashes
map_stable_hashes-unchanged xxh32 content hs reserved rc sc e whole =
    let lines : List Str = split_lines content in
    let st : Placement = placement lines hs lines [] reserved in
    let full : fill xxh32 st.pool (map truthy st.placed) lines ≡ some hs =
      ap (λ t. fill xxh32 st.pool (map truthy t) lines) (placement-unchanged lines hs reserved e)
      ∙ ap (λ t. fill xxh32 st.pool t lines) (truthy-some hs whole)
      ∙ fill-full xxh32 st.pool hs lines e in
    ground (arith, full)
