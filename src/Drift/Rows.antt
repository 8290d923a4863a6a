-- ===== src/Drift/Rows.antt =====
-- What a drift notice shows, and by what key an episode is known.
use mathlib.Core.Path.{subst}
use dsh_better_edit.Prelude.{
  ℕ, zero, suc, ◌+◌, ◌-◌, ◌<◌, ◌≤◌, ◌≡◌, refl, ap, sym, ◌∙◌, Bool, true, false, ◌&&◌, not, none,
  some, List, [], ◌∷◌, Str, ltb, leb, ◌==◌, leb→le, if◌then◌else◌, Bool-cases, inl, inr, length,
  length-take, length-map, get_elem?, take, map, arith, pos,
}
use dsh_better_edit.HashAssign.{hash_space, idx_to_hash}
use dsh_better_edit.HashAssign.Codec.{idx_to_hash-injective}
use dsh_better_edit.Drift.{
  DriftInput, drift_episode_prefix, drift_episode_key, count_drift, insert_position, insert_if,
  window_of, DriftRow, drift_row, DriftNotice, notice_of, compute_drift,
}

key_inside :
    (n : ℕ) → n < hash_space → drift_episode_key (pos n) ≡ drift_episode_prefix ∷ idx_to_hash n
unfolding drift_episode_key
key_inside n h = rw (over (leb hash_space n) refl) refl
  where
    over : (b : Bool) → leb hash_space n ≡ b → leb hash_space n ≡ false
    over true e = absurd (omega (arith, leb→le hash_space n e))
    over false e = e

-- Two positions inside the anchor space never share an episode key.
pub drift_episode_key-injective :
    (m n : ℕ)
    → m < hash_space
    → n < hash_space
    → drift_episode_key (pos m) ≡ drift_episode_key (pos n)
    → m ≡ n
drift_episode_key-injective m n p q e =
    idx_to_hash-injective m n p q (tails (sym (key_inside m p) ∙ e ∙ key_inside n q))
  where
    tails : {a b : Str} → drift_episode_prefix ∷ a ≡ drift_episode_prefix ∷ b → a ≡ b
    tails h = cc

-- An ascending list of numbers from `low` on and below `high`.
abbrev pub AscendsIn : ℕ → ℕ → List ℕ → Type 0
AscendsIn low high [] = Unit
AscendsIn low high (x ∷ xs) = (low ≤ x) × (x < high) × AscendsIn (suc x) high xs

insert_position-Ascends :
    (low high w : ℕ) (xs : List ℕ)
    → low ≤ w
    → w < high
    → AscendsIn low high xs
    → AscendsIn low high (insert_position w xs)
unfolding insert_position
insert_position-Ascends low high w [] h k a = (h, k, tt)
insert_position-Ascends low high w (x ∷ xs) h k (b, c, a) = elim (Bool-cases (ltb w x)) [
  | inl lt ↦ rw lt (h, k, (ground arith, c, a))
  | inr ge ↦ elim (Bool-cases (w == x)) [
    | inl eq ↦ rw (ge, eq) (b, c, a)
    | inr ne ↦ rw (ge, ne) (b, c, insert_position-Ascends (suc x) high w xs (ground arith) k a)
  ]
]

insert_if-Ascends :
    (test : Bool) (high w : ℕ) (xs : List ℕ)
    → (test ≡ true → w < high)
    → AscendsIn 0 high xs
    → AscendsIn 0 high (insert_if test w xs)
insert_if-Ascends true high w xs h a = insert_position-Ascends 0 high w xs (omega arith) (h refl) a
insert_if-Ascends false high w xs h a = a

window_of-Ascends : (count : ℕ) (ps : List ℕ) → AscendsIn 0 count (window_of count ps)
unfolding window_of
window_of-Ascends count [] = tt
window_of-Ascends count (p ∷ ps) =
    insert_if-Ascends (ltb 0 p && ltb (p - 1) count) count (p - 1)
      (insert_if (ltb p count) p (insert_if (ltb (p + 1) count) (p + 1) (window_of count ps)))
      (λ e. ground arith)
      (insert_if-Ascends (ltb p count) count p
        (insert_if (ltb (p + 1) count) (p + 1) (window_of count ps)) (λ e. ground arith)
        (insert_if-Ascends (ltb (p + 1) count) count (p + 1) (window_of count ps)
          (λ e. ground arith) (window_of-Ascends count ps)))

take-Ascends :
    (n low high : ℕ) (xs : List ℕ) → AscendsIn low high xs → AscendsIn low high (take n xs)
take-Ascends zero low high xs a = tt
take-Ascends (suc n) low high [] a = tt
take-Ascends (suc n) low high (x ∷ xs) (b, c, a) = (b, c, take-Ascends n (suc x) high xs a)

-- The rows show lines of the file, from top to bottom.
abbrev pub RowsOf : DriftInput → ℕ → List DriftRow → Type 0
RowsOf input low [] = Unit
RowsOf input low (r ∷ rs) =
    (low ≤ r.position)
    × (r.position < length input.result_lines)
    × (r.hash ≡ get_elem? input.result_hashes r.position)
    × (r.content ≡ get_elem? input.result_lines r.position)
    × RowsOf input (suc r.position) rs

rows-RowsOf :
    (input : DriftInput) (drifted : List ℕ) (low : ℕ) (ws : List ℕ)
    → AscendsIn low (length input.result_lines) ws
    → RowsOf input low (map (drift_row input drifted) ws)
rows-RowsOf input drifted low [] a = tt
rows-RowsOf input drifted low (w ∷ ws) (b, c, a) =
    (b, c, refl, refl, rows-RowsOf input drifted (suc w) ws a)

-- A notice has at most as many rows as its cap, and they are lines of the file with the anchors there,
-- from top to bottom and none twice.
pub compute_drift-RowsOf :
    (input : DriftInput) (notice : DriftNotice)
    → compute_drift input ≡ some notice
    → (length notice.rows ≤ input.cap) × RowsOf input 0 notice.rows
unfolding compute_drift
compute_drift-RowsOf input notice e =
    by_test (count_drift input).any_not_reported ((count_drift input).total == 0) e
  where
    window : List ℕ
    window = window_of (length input.result_lines) (count_drift input).drifted

    shown_rows : List DriftRow
    shown_rows = map (drift_row input (count_drift input).drifted) (take input.cap window)

    fits : (length shown_rows ≤ input.cap) × RowsOf input 0 shown_rows
    fits = (
      omega (
        arith,
        length-map (take input.cap window) (drift_row input (count_drift input).drifted),
        length-take input.cap window,
      ),
      rows-RowsOf input (count_drift input).drifted 0 (take input.cap window) (
          take-Ascends input.cap 0 (length input.result_lines) window
            (window_of-Ascends (length input.result_lines) (count_drift input).drifted)),
    )

    of_rows :
        (rows : List DriftRow)
        → (length rows ≤ input.cap) × RowsOf input 0 rows
        → rows ≡ notice.rows
        → (length notice.rows ≤ input.cap) × RowsOf input 0 notice.rows
    of_rows rows h same = subst (λ rs. (length rs ≤ input.cap) × RowsOf input 0 rs) same h

    rows_of : (a b : DriftNotice) → some a ≡ some b → a.rows ≡ b.rows
    rows_of a b h = let same : a ≡ b = cc in ap (λ x. x.rows) same

    by_test :
        (new quiet : Bool)
        → (if quiet
            then none
            else if not new
            then some (record {
              rows = [];
              total = (count_drift input).total;
              more = 0;
              all_already_reported = true;
            })
            else some (notice_of input (count_drift input) window))
          ≡ some notice
        → (length notice.rows ≤ input.cap) × RowsOf input 0 notice.rows
    by_test new true h = absurd (none-ne-some h)
      where
        none-ne-some : none ≡ some notice → ⊥
        none-ne-some g = cc
    by_test false false h = of_rows [] (omega arith, tt) (rows_of _ notice h)
    by_test true false h =
        of_rows shown_rows fits (rows_of (notice_of input (count_drift input) window) notice h)
