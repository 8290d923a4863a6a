-- ===== src/HashAssign/Stable/Origin.antt =====
-- Where a placed anchor comes from: an old line that was not removed, with the same canon as the new one.
use dsh_better_edit.Prelude.{
  ℕ, zero, suc, ◌+◌, ◌<◌, ◌≡◌, sym, ap, ◌∙◌, Bool, true, false, Option, none, some, List, [], ◌∷◌,
  Str, if◌then◌else◌, get_or, get_elem?, set, length, arith, Bool-cases, inl, inr, All, NotIn,
  Distinct, length-set, get_elem?-set_self, get_elem?-set_ne, str_eq, str_eq_sound, dec_lt,
  ℕ_discrete, get_elem?-none,
}
use dsh_better_edit.HashAssign.{canon}
use dsh_better_edit.HashAssign.Stable.{
  has_index, Survivor, survivors, positions, remove_at, Placement, target_of, place_at, place,
  place_all,
}
use dsh_better_edit.HashAssign.Stable.Nearest.{nearest_new-inside}
use dsh_better_edit.HashAssign.Stable.Placing.{place-cases, hashes_of}

-- The candidates of a key are indices of new lines with that canon.
abbrev pub CandidatesOk : List Str → (Str → List ℕ) → Type 0
CandidatesOk new_lines cands =
    (key : Str)
    → All (λ j. (l : Str) × (get_elem? new_lines j ≡ some l) × (canon l ≡ key)) (cands key)

remove_at-All {κ} : (P : ℕ → Type κ) (pos : ℕ) (xs : List ℕ) → All P xs → All P (remove_at pos xs)
unfolding remove_at
remove_at-All P pos [] h = tt
remove_at-All P zero (x ∷ xs) h = h.1
remove_at-All P (suc pos) (x ∷ xs) h = (h.0, remove_at-All P pos xs h.1)

-- The list after a splice of one key, at any key.
splice-All {κ} :
    (P : ℕ → Type κ) (b : Bool) (pos : ℕ) (xs : List ℕ)
    → All P xs
    → All P (if b then remove_at pos xs else xs)
splice-All P true pos xs h = remove_at-All P pos xs h
splice-All P false pos xs h = h

All-get_or {κ} :
    (P : ℕ → Type κ) (xs : List ℕ) (pos : ℕ) → pos < length xs → All P xs → P (get_or xs pos 0)
All-get_or P [] pos b h = elim b [ ]
All-get_or P (x ∷ xs) zero b h = h.0
All-get_or P (x ∷ xs) (suc pos) b h = All-get_or P xs pos (omega arith) h.1

-- `pre` lines stand before the rest.
positions-Ok :
    (key : Str) (all_lines lines : List Str) (i : ℕ)
    → ((m : ℕ) → get_elem? lines m ≡ get_elem? all_lines (i + m))
    → All
        (λ j. (l : Str) × (get_elem? all_lines j ≡ some l) × (canon l ≡ key))
        (positions key lines i)
unfolding positions
positions-Ok key all_lines [] i h = tt
positions-Ok key all_lines (line ∷ lines) i h =
    let rest : All (λ j. (l : Str) × (get_elem? all_lines j ≡ some l) × (canon l ≡ key))
        (positions key lines (suc i)) =
      positions-Ok key all_lines lines (suc i)
        (λ m. h (suc m) ∙ ap (get_elem? all_lines) (omega arith)) in
    elim (Bool-cases (str_eq key (canon line))) [
      | inl same ↦
          let at : i + 0 ≡ i = omega arith in
          rw (same, positions)
            (
              (
                line,
                ap (get_elem? all_lines) (sym at) ∙ sym (h 0),
                sym (str_eq_sound key (canon line) same),
              ),
              rest,
            )
      | inr other ↦ rw (other, positions) rest
    ]

pub positions-CandidatesOk :
    (new_lines : List Str) → CandidatesOk new_lines (λ key. positions key new_lines 0)
positions-CandidatesOk new_lines key =
    positions-Ok key new_lines new_lines 0 (λ m. ap (get_elem? new_lines) (omega arith))

-- `P j h`: slot `j` may hold the anchor `h`.
module _ (new_lines : List Str) (P : ℕ → Str → Type 0) where
  -- Every filled slot is as it may be.
  abbrev pub SlotsOk : List (Option Str) → Type 0
  SlotsOk slots = (j : ℕ) (h : Str) → get_elem? slots j ≡ some (some h) → P j h

  -- The survivor's anchor may stand at every new line with its canon.
  abbrev pub MayPlace : Survivor → Type 0
  MayPlace s =
      (j : ℕ) (l : Str) → get_elem? new_lines j ≡ some l → canon l ≡ canon s.line → P j s.hash

  set-SlotsOk :
      (slots : List (Option Str)) (i : ℕ) (h : Str)
      → P i h
      → SlotsOk slots
      → SlotsOk (set slots i (some h))
  set-SlotsOk slots i h p ok j x e = elim (ℕ_discrete i j) [
    | no other ↦ ok j x (sym (get_elem?-set_ne slots i j (some h) other) ∙ e)
    | yes same ↦ elim (dec_lt i (length slots)) [
      | yes inside ↦
          let held : some (some h) ≡ some (some x) =
            sym (get_elem?-set_self slots i (some h) inside)
            ∙ ap (get_elem? (set slots i (some h))) same
            ∙ e in
          let eq : h ≡ x = cc in rw (← same, ← eq) p
      | no outside ↦
          let missing : get_elem? (set slots i (some h)) j ≡ none =
            get_elem?-none (set slots i (some h)) j (omega (arith, length-set slots i (some h))) in
          absurd (ground (arith, missing, e))
    ]
  ]

  place-Ok :
      (end : Option ℕ) (m n : ℕ) (st : Placement) (s : Survivor)
      → MayPlace s
      → CandidatesOk new_lines st.candidates
      → SlotsOk st.placed
      → CandidatesOk new_lines (place end m n st s).candidates × SlotsOk (place end m n st s).placed
  place-Ok end m n st s may cands ok =
      place-cases end m n (λ st'. CandidatesOk new_lines st'.candidates × SlotsOk st'.placed) st s
        (cands, ok)
        (λ pos found.
          let key : Str = canon s.line in
          let hit : (l : Str) × (get_elem? new_lines (get_or (st.candidates key) pos 0) ≡ some l)
              × (canon l ≡ key) =
            All-get_or (λ j. (l : Str) × (get_elem? new_lines j ≡ some l) × (canon l ≡ key))
              (st.candidates key) pos
              (nearest_new-inside (st.candidates key) (target_of end m n s.index) pos found)
              (cands key) in
          unfold place_at in
          (
            (λ k. splice-All _ (str_eq k key) pos (st.candidates k) (cands k)),
            set-SlotsOk st.placed (get_or (st.candidates key) pos 0) s.hash
                (may _ hit.0 hit.1 hit.2) ok,
          ))

  pub place_all-SlotsOk :
      (end : Option ℕ) (m n : ℕ) (st : Placement) (ss : List Survivor)
      → All MayPlace ss
      → CandidatesOk new_lines st.candidates
      → SlotsOk st.placed
      → SlotsOk (place_all end m n st ss).placed
  unfolding place_all
  place_all-SlotsOk end m n st [] may cands ok = ok
  place_all-SlotsOk end m n st (s ∷ ss) may cands ok =
      let step : CandidatesOk new_lines (place end m n st s).candidates
          × SlotsOk (place end m n st s).placed =
        place-Ok end m n st s may.0 cands ok in
      place_all-SlotsOk end m n (place end m n st s) ss may.1 step.0 step.1

-- What the loop is given of each survivor.
pub record IsSurvivor (lines hashes : List Str) (gone : List ℕ) (s : Survivor) : Type 0 where
  pub its_line : get_elem? lines s.index ≡ some s.line
  pub its_hash : get_elem? hashes s.index ≡ some s.hash
  pub kept : has_index s.index gone ≡ false

survivors-from :
    (all_lines all_hashes : List Str) (gone : List ℕ) (lines hashes : List Str) (i : ℕ)
    → ((m : ℕ) → get_elem? lines m ≡ get_elem? all_lines (i + m))
    → ((m : ℕ) → get_elem? hashes m ≡ get_elem? all_hashes (i + m))
    → All (IsSurvivor all_lines all_hashes gone) (survivors lines hashes gone i)
unfolding survivors
survivors-from all_lines all_hashes gone [] hashes i p q = tt
survivors-from all_lines all_hashes gone (line ∷ lines) [] i p q = tt
survivors-from all_lines all_hashes gone (line ∷ lines) (hash ∷ hashes) i p q =
    let rest : All (IsSurvivor all_lines all_hashes gone) (survivors lines hashes gone (suc i)) =
      survivors-from all_lines all_hashes gone lines hashes (suc i)
        (λ m. p (suc m) ∙ ap (get_elem? all_lines) (omega arith))
        (λ m. q (suc m) ∙ ap (get_elem? all_hashes) (omega arith)) in
    let at : i + 0 ≡ i = omega arith in
    elim (Bool-cases (has_index i gone)) [
      | inl removed ↦ rw (removed, survivors) rest
      | inr stays ↦
          rw (stays, survivors)
            (
              record {
                its_line = ap (get_elem? all_lines) (sym at) ∙ sym (p 0);
                its_hash = ap (get_elem? all_hashes) (sym at) ∙ sym (q 0);
                kept = stays;
              },
              rest,
            )
    ]

pub survivors-IsSurvivor :
    (lines hashes : List Str) (gone : List ℕ)
    → All (IsSurvivor lines hashes gone) (survivors lines hashes gone 0)
survivors-IsSurvivor lines hashes gone =
    survivors-from lines hashes gone lines hashes 0 (λ m. ap (get_elem? lines) (omega arith))
      (λ m. ap (get_elem? hashes) (omega arith))

survivors-NotIn :
    (h : Str) (lines hashes : List Str) (gone : List ℕ) (i : ℕ)
    → NotIn h hashes
    → NotIn h (hashes_of (survivors lines hashes gone i))
unfolding survivors
survivors-NotIn h [] hashes gone i p = tt
survivors-NotIn h (line ∷ lines) [] gone i p = tt
survivors-NotIn h (line ∷ lines) (hash ∷ hashes) gone i p = elim (Bool-cases (has_index i gone)) [
  | inl removed ↦ rw (removed, survivors) (survivors-NotIn h lines hashes gone (suc i) p.1)
  | inr stays ↦ rw (stays, survivors) (p.0, survivors-NotIn h lines hashes gone (suc i) p.1)
]

pub survivors-Distinct :
    (lines hashes : List Str) (gone : List ℕ) (i : ℕ)
    → Distinct hashes
    → Distinct (hashes_of (survivors lines hashes gone i))
unfolding survivors
survivors-Distinct [] hashes gone i p = tt
survivors-Distinct (line ∷ lines) [] gone i p = tt
survivors-Distinct (line ∷ lines) (hash ∷ hashes) gone i p =
    let rest : Distinct (hashes_of (survivors lines hashes gone (suc i))) =
      survivors-Distinct lines hashes gone (suc i) p.1 in
    elim (Bool-cases (has_index i gone)) [
      | inl removed ↦ rw (removed, survivors) rest
      | inr stays ↦ rw (stays, survivors) (survivors-NotIn hash lines hashes gone (suc i) p.0, rest)
    ]
