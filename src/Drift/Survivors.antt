-- ===== src/Drift/Survivors.antt =====
-- What the loop over the served slots counts.
use dsh_better_edit.Prelude.{
  ℕ, suc, ◌<◌, ◌≤◌, ◌≡◌, refl, ap, ◌∙◌, Bool, true, false, ◌&&◌, ◌||◌, not, Option, none, some,
  List, [], ◌∷◌, Str, ◌==◌, if◌then◌else◌, Bool-cases, inl, inr, length, get_elem?, has, arith,
}
use dsh_better_edit.AnchorPipeline.Leases.{Slot}
use dsh_better_edit.Drift.{
  delta_of, DriftInput, drift_episode_key, Counted, in_file, add_position, count_drifted,
  is_checked, check_rotated, take_canon, Taken, count_slot, count_slots, served_range,
  rotated_survivors, has_canons, count_drift, window_of, notice_of, compute_drift,
  current_position_of_drifted,
}

-- Every served line outside the range still has its anchor; `p` is the position of the first slot.
unfoldable pub all_survive : DriftInput → ℕ → ℕ → ℕ → List Slot → Bool
all_survive input from to p [] = true
all_survive input from to p (none ∷ slots) = all_survive input from to (suc p) slots
all_survive input from to p (some hash ∷ slots) =
    not (is_checked input from to p hash) && all_survive input from to (suc p) slots

add_position-total : (o : Option ℕ) (c : Counted) → (add_position o c).total ≡ c.total
add_position-total none c = refl
add_position-total (some n) c = refl

count_drifted-total :
    (input : DriftInput) (p : ℕ) (c : Counted) → (count_drifted input p c).total ≡ suc c.total
unfolding count_drifted
count_drifted-total input p c =
    add_position-total
      (in_file input
        (current_position_of_drifted input.served input.result_hashes p (delta_of input.range)))
      (record c {
        total = suc c.total;
        any_not_reported =
            c.any_not_reported
            || not (
                has
                  (drift_episode_key (
                    current_position_of_drifted input.served input.result_hashes p
                      (delta_of input.range)))
                  input.reported);
      })

-- The count never falls.
count_slot-ge :
    (input : DriftInput) (from to p : ℕ) (hash : Str) (c : Counted)
    → c.total ≤ (count_slot input from to p hash c).total
unfolding count_slot
count_slot-ge input from to p hash c = by_test (is_checked input from to p hash) rotated.took
  where
    rotated : Taken
    rotated = check_rotated (get_elem? input.served_canons p) c.remaining

    by_test :
        (checked took : Bool)
        → c.total
          ≤ (if checked
              then (if took
                  then record c { remaining = rotated.remaining }
                  else count_drifted input p (record c { remaining = rotated.remaining }))
              else c).total
    by_test false took = omega arith
    by_test true true = omega arith
    by_test true false =
        omega (arith, count_drifted-total input p (record c { remaining = rotated.remaining }))

count_slots-ge :
    (input : DriftInput) (from to p : ℕ) (slots : List Slot) (c : Counted)
    → c.total ≤ (count_slots input from to p slots c).total
unfolding count_slots
count_slots-ge input from to p [] c = omega arith
count_slots-ge input from to p (none ∷ slots) c = count_slots-ge input from to (suc p) slots c
count_slots-ge input from to p (some hash ∷ slots) c = omega (
  arith,
  count_slot-ge input from to p hash c,
  count_slots-ge input from to (suc p) slots (count_slot input from to p hash c),
)

-- With no canons left, a slot that is checked counts.
check_rotated_nothing :
    (o : Option (Option Str)) (left : List Str) → left ≡ [] → (check_rotated o left).took ≡ false
unfolding take_canon
check_rotated_nothing none left e = refl
check_rotated_nothing (some none) left e = refl
check_rotated_nothing (some (some c)) left e = rw e refl

count_slot-checked :
    (input : DriftInput) (from to p : ℕ) (hash : Str) (c : Counted)
    → c.remaining ≡ []
    → is_checked input from to p hash ≡ true
    → (count_slot input from to p hash c).total ≡ suc c.total
unfolding count_slot
count_slot-checked input from to p hash c empty checked =
    rw (checked, check_rotated_nothing (get_elem? input.served_canons p) c.remaining empty)
      (count_drifted-total input p (record c {
        remaining = (check_rotated (get_elem? input.served_canons p) c.remaining).remaining;
      }))

count_slot-unchecked :
    (input : DriftInput) (from to p : ℕ) (hash : Str) (c : Counted)
    → is_checked input from to p hash ≡ false
    → count_slot input from to p hash c ≡ c
unfolding count_slot
count_slot-unchecked input from to p hash c unchecked = rw unchecked refl

-- Without canons, nothing is counted exactly when every line outside the range survives.
count_slots-none :
    (input : DriftInput) (from to p : ℕ) (slots : List Slot) (c : Counted)
    → c.remaining ≡ []
    → c.total ≡ 0
    → ((count_slots input from to p slots c).total == 0) ≡ all_survive input from to p slots
unfolding count_slots all_survive
count_slots-none input from to p [] c empty zero_total = rw zero_total refl
count_slots-none input from to p (none ∷ slots) c empty zero_total =
    count_slots-none input from to (suc p) slots c empty zero_total
count_slots-none input from to p (some hash ∷ slots) c empty zero_total =
    elim (Bool-cases (is_checked input from to p hash)) [
      | inl checked ↦ rw checked (
          positive
            (count_slots input from to (suc p) slots (count_slot input from to p hash c)).total
            (omega (
              arith,
              count_slots-ge input from to (suc p) slots (count_slot input from to p hash c),
              count_slot-checked input from to p hash c empty checked,
            )))
      | inr unchecked ↦ rw unchecked (
          ap (λ d. (count_slots input from to (suc p) slots d).total == 0)
            (count_slot-unchecked input from to p hash c unchecked)
          ∙ count_slots-none input from to (suc p) slots c empty zero_total)
    ]
  where
    positive : (n : ℕ) → 0 < n → (n == 0) ≡ false
    positive n h = ground arith

abbrev pub is_none {ℓ} : {A : Type ℓ} → Option A → Bool
is_none none = true
is_none (some a) = false

-- Without canons of served lines there is no notice exactly when each line served outside the range of
-- the edit still has its anchor in the file.
pub compute_drift-all_survive :
    (input : DriftInput)
    → has_canons input.served_canons ≡ false
    → is_none (compute_drift input)
      ≡ all_survive input (served_range input).from (served_range input).to 0 input.served
unfolding compute_drift count_drift rotated_survivors
compute_drift-all_survive input no_canons =
    by_test (count_drift input).any_not_reported ((count_drift input).total == 0)
    ∙ count_slots-none input (served_range input).from (served_range input).to 0 input.served start
        (rw no_canons refl) refl
  where
    start : Counted
    start = record {
      remaining = rotated_survivors input (served_range input).from (served_range input).to;
      total = 0;
      unshown = 0;
      any_not_reported = false;
      drifted = [];
    }

    by_test :
        (new quiet : Bool)
        → is_none (
            if quiet
            then none
            else if not new
            then some (record {
              rows = [];
              total = (count_drift input).total;
              more = 0;
              all_already_reported = true;
            })
            else some (
                notice_of input
                  (count_drift input)
                  (window_of (length input.result_lines) (count_drift input).drifted)))
          ≡ quiet
    by_test new true = refl
    by_test false false = refl
    by_test true false = refl
