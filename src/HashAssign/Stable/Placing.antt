-- ===== src/HashAssign/Stable/Placing.antt =====
-- The survivor loop of `mapStableHashes`: which anchors it places where.
use dsh_better_edit.Prelude.{
  ℕ, zero, suc, ◌≡◌, ◌≢◌, refl, sym, ◌∙◌, true, Option, none, some, List, [], ◌∷◌, Str, set, length,
  Option-cases, inl, inr, All, NotIn, Distinct, length-set,
}
use dsh_better_edit.HashAssign.{get_bit, hash_to_index, canon, Pool}
use dsh_better_edit.HashAssign.Bits.{set_bit-keeps}
use dsh_better_edit.HashAssign.Stable.{
  nearest_new, Survivor, Placement, mark_used, target_of, place_at, place, place_all,
}

-- No slot holds the anchor.
abbrev pub NotPlaced : Str → List (Option Str) → Type 0
NotPlaced h [] = Unit
NotPlaced h (none ∷ slots) = NotPlaced h slots
NotPlaced h (some x ∷ slots) = (h ≢ x) × NotPlaced h slots

-- No two slots hold the same anchor.
abbrev pub PlacedDistinct : List (Option Str) → Type 0
PlacedDistinct [] = Unit
PlacedDistinct (none ∷ slots) = PlacedDistinct slots
PlacedDistinct (some x ∷ slots) = NotPlaced x slots × PlacedDistinct slots

set-NotPlaced :
    (h x : Str) (slots : List (Option Str)) (j : ℕ)
    → h ≢ x
    → NotPlaced h slots
    → NotPlaced h (set slots j (some x))
set-NotPlaced h x [] j p q = tt
set-NotPlaced h x (none ∷ slots) zero p q = (p, q)
set-NotPlaced h x (some y ∷ slots) zero p q = (p, q.1)
set-NotPlaced h x (none ∷ slots) (suc j) p q = set-NotPlaced h x slots j p q
set-NotPlaced h x (some y ∷ slots) (suc j) p q = (q.0, set-NotPlaced h x slots j p q.1)

set-PlacedDistinct :
    (x : Str) (slots : List (Option Str)) (j : ℕ)
    → NotPlaced x slots
    → PlacedDistinct slots
    → PlacedDistinct (set slots j (some x))
set-PlacedDistinct x [] j p q = tt
set-PlacedDistinct x (none ∷ slots) zero p q = (p, q)
set-PlacedDistinct x (some y ∷ slots) zero p q = (p.1, q.1)
set-PlacedDistinct x (none ∷ slots) (suc j) p q = set-PlacedDistinct x slots j p q
set-PlacedDistinct x (some y ∷ slots) (suc j) p q =
    (set-NotPlaced y x slots j (λ e. p.0 (sym e)) q.0, set-PlacedDistinct x slots j p.1 q.1)

abbrev pub hashes_of : List Survivor → List Str
hashes_of [] = []
hashes_of (s ∷ ss) = s.hash ∷ hashes_of ss

AllNotPlaced-set :
    (x : Str) (hs : List Str) (slots : List (Option Str)) (j : ℕ)
    → NotIn x hs
    → All (λ h. NotPlaced h slots) hs
    → All (λ h. NotPlaced h (set slots j (some x))) hs
AllNotPlaced-set x [] slots j p q = tt
AllNotPlaced-set x (h ∷ hs) slots j p q =
    (set-NotPlaced h x slots j (λ e. p.0 (sym e)) q.0, AllNotPlaced-set x hs slots j p.1 q.1)

module _ (end : Option ℕ) (old_count new_count : ℕ) where
  -- A turn of the loop places the survivor or does nothing.
  pub place-cases :
      (P : Placement → Type 0) (st : Placement) (s : Survivor)
      → P st
      → ((pos : ℕ)
          → nearest_new (st.candidates (canon s.line)) (target_of end old_count new_count s.index)
            ≡ some pos
          → P (place_at st s pos))
      → P (place end old_count new_count st s)
  unfolding place
  place-cases P st s stay move =
      elim (Option-cases
        (nearest_new (st.candidates (canon s.line)) (target_of end old_count new_count s.index))) [
          | inl missed ↦ rw (missed, place) stay
          | inr (pos, found) ↦ rw (found, place) (move pos found)
        ]

  place-PlacedDistinct :
      (st : Placement) (s : Survivor) (hs : List Str)
      → NotIn s.hash hs
      → NotPlaced s.hash st.placed
      → All (λ h. NotPlaced h st.placed) hs
      → PlacedDistinct st.placed
      → PlacedDistinct (place end old_count new_count st s).placed
        × All (λ h. NotPlaced h (place end old_count new_count st s).placed) hs
  place-PlacedDistinct st s hs apart fresh others distinct =
      place-cases (λ st'. PlacedDistinct st'.placed × All (λ h. NotPlaced h st'.placed) hs) st s
        (distinct, others)
        (λ pos found.
          unfold place_at in
          (
            set-PlacedDistinct s.hash st.placed _ fresh distinct,
            AllNotPlaced-set s.hash hs st.placed _ apart others,
          ))

  pub place_all-PlacedDistinct :
      (st : Placement) (ss : List Survivor)
      → Distinct (hashes_of ss)
      → All (λ h. NotPlaced h st.placed) (hashes_of ss)
      → PlacedDistinct st.placed
      → PlacedDistinct (place_all end old_count new_count st ss).placed
  unfolding place_all
  place_all-PlacedDistinct st [] d f p = p
  place_all-PlacedDistinct st (s ∷ ss) d f p =
      let step : PlacedDistinct (place end old_count new_count st s).placed
          × All (λ h. NotPlaced h (place end old_count new_count st s).placed) (hashes_of ss) =
        place-PlacedDistinct st s (hashes_of ss) d.0 f.0 f.1 p in
      place_all-PlacedDistinct (place end old_count new_count st s) ss d.1 step.1 step.0

  mark_used-keeps :
      (p : Pool) (h : Str) (i : ℕ) → get_bit p.used i ≡ true → get_bit (mark_used p h).used i ≡ true
  unfolding mark_used
  mark_used-keeps p h i b = elim (Option-cases (hash_to_index h)) [
    | inl missing ↦ rw (missing, mark_used) b
    | inr (k, found) ↦ rw (found, mark_used) (set_bit-keeps p.used k i b)
  ]

  pub place_all-keeps_bits :
      (st : Placement) (ss : List Survivor) (i : ℕ)
      → get_bit st.pool.used i ≡ true
      → get_bit (place_all end old_count new_count st ss).pool.used i ≡ true
  unfolding place_all
  place_all-keeps_bits st [] i b = b
  place_all-keeps_bits st (s ∷ ss) i b =
      place_all-keeps_bits (place end old_count new_count st s) ss i (
        place-cases (λ st'. get_bit st'.pool.used i ≡ true) st s b
          (λ pos found. unfold place_at in mark_used-keeps st.pool s.hash i b))

  pub length-place_all :
      (st : Placement) (ss : List Survivor)
      → length (place_all end old_count new_count st ss).placed ≡ length st.placed
  unfolding place_all
  length-place_all st [] = refl
  length-place_all st (s ∷ ss) =
      length-place_all (place end old_count new_count st s) ss
      ∙ place-cases (λ st'. length st'.placed ≡ length st.placed) st s refl
          (λ pos found. unfold place_at in length-set st.placed _ (some s.hash))
