-- ===== src/Pairing/Align/Sound.antt =====
-- The recursion over intervals ends, and joins only lines with the same key.
use mathlib.Core.Path.{subst}
use dsh_better_edit.Prelude.{
  ℕ, zero, suc, ◌+◌, ◌-◌, ◌<◌, ◌≤◌, ◌≡◌, refl, Bool, true, false, ◌&&◌, ◌||◌, Option, none, some,
  List, [], ◌∷◌, Str, ◌==◌, ltb, if◌then◌else◌, Bool-cases, ◌⊎◌, inl, inr, length, All, arith,
}
use dsh_better_edit.Pairing.Pins.{AnchorPin, interval, find_unique_pins}
use dsh_better_edit.Pairing.Backbone.{find_stable_pin_backbone}
use dsh_better_edit.Pairing.Backbone.Kept.{find_stable_pin_backbone-All}
use dsh_better_edit.Pairing.Lcs.{compute_lcs_paths, LcsAlignment}
use dsh_better_edit.Pairing.Pairs.{
  Joins, All-imp, IsPair, IsPairIn, Joins-IsPairIn, zip_pins-All_join, compute_lcs_paths-All_join,
  length-interval, find_unique_pins-All_pair,
}
use dsh_better_edit.Pairing.Align.{
  set_pair, set_pairs, Aligned, identical, zip_pins, too_large, align_leaf, Call, align_pins,
  align_stable, align_recursive, is_rising, sort_pins, paired, monotonicity_violation,
  assert_monotonic_pairing, budget_of, ended_in, pair_snapshots,
}

module _ {κ} (P : AnchorPin → Type κ) where
  set_pair-All :
      (pin : AnchorPin) (pairing : List AnchorPin)
      → P pin
      → All P pairing
      → All P (set_pair pin pairing)
  unfolding set_pair
  set_pair-All pin [] p h = (p, tt)
  set_pair-All pin (q ∷ qs) p (k, h) = elim (Bool-cases (q.prev_line == pin.prev_line)) [
    | inl same ↦ rw (same, All) (p, h)
    | inr other ↦ rw (other, All) (k, set_pair-All pin qs p h)
  ]

  set_pairs-All :
      (pins pairing : List AnchorPin) → All P pins → All P pairing → All P (set_pairs pins pairing)
  unfolding set_pairs
  set_pairs-All [] pairing h k = k
  set_pairs-All (pin ∷ pins) pairing (p, h) k =
      set_pairs-All pins (set_pair pin pairing) h (set_pair-All pin pairing p k)

-- A call that ends, with pairs only.
abbrev pub EndsWith : (AnchorPin → Type 0) → Option Aligned → Type 0
EndsWith P none = ⊥
EndsWith P (some st) = All P st.pairing

module _ (prev_lines curr_lines : List Str) where
  abbrev Pair : AnchorPin → Type 0
  Pair pin = IsPair prev_lines curr_lines pin

  abbrev leaf_by : ℕ → ℕ → ℕ → ℕ → Aligned → Bool → Bool → Bool → Aligned
  leaf_by ps pe cs ce st run large unique =
      if run
      then record st { pairing = set_pairs (zip_pins (pe + 1 - ps) ps cs) st.pairing }
      else if large
      then st
      else if unique
      then record st {
        pairing = set_pairs (compute_lcs_paths prev_lines curr_lines ps pe cs ce).pairs st.pairing;
      }
      else st

  align_leaf-All :
      (ps pe cs ce : ℕ) (st : Aligned)
      → 1 ≤ ps
      → pe ≤ length prev_lines
      → 1 ≤ cs
      → ce ≤ length curr_lines
      → All Pair st.pairing
      → All Pair (align_leaf prev_lines curr_lines ps pe cs ce st).pairing
  unfolding align_leaf
  align_leaf-All ps pe cs ce st a b c d h =
      by_test ((pe + 1 - ps == ce + 1 - cs) && identical old new)
        (too_large (pe + 1 - ps) (ce + 1 - cs)) lcs.is_unique refl
    where
      old : List Str
      old = interval prev_lines ps pe

      new : List Str
      new = interval curr_lines cs ce

      lcs : LcsAlignment
      lcs = compute_lcs_paths prev_lines curr_lines ps pe cs ce

      pairs_of : (pins : List AnchorPin) → All (Joins ps old cs new) pins → All Pair pins
      pairs_of pins js =
          All-imp (Joins ps old cs new) Pair pins
            (λ pin j. (Joins-IsPairIn prev_lines curr_lines ps pe cs ce a b c d pin j).0) js

      zipped : identical old new ≡ true → All Pair (zip_pins (pe + 1 - ps) ps cs)
      zipped same = pairs_of (zip_pins (pe + 1 - ps) ps cs) (
          subst (λ n. All (Joins ps old cs new) (zip_pins n ps cs))
            (length-interval prev_lines ps pe a b) (zip_pins-All_join ps cs old new same))

      by_test :
          (run large unique : Bool)
          → ((pe + 1 - ps == ce + 1 - cs) && identical old new) ≡ run
          → All Pair (leaf_by ps pe cs ce st run large unique).pairing
      by_test true large unique e =
          set_pairs-All Pair (zip_pins (pe + 1 - ps) ps cs) st.pairing (zipped (ground arith)) h
      by_test false true unique e = h
      by_test false false true e =
          set_pairs-All Pair lcs.pairs st.pairing
            (pairs_of lcs.pairs (compute_lcs_paths-All_join prev_lines curr_lines ps pe cs ce)) h
      by_test false false false e = h

  -- What a call of the recursion promises, with enough fuel for its old lines.
  abbrev Promise : ℕ → Call → Type 0
  Promise fuel recurse =
      (ps pe cs ce : ℕ) (st : Aligned)
      → 1 ≤ ps
      → pe ≤ length prev_lines
      → 1 ≤ cs
      → ce ≤ length curr_lines
      → 0 < fuel
      → pe + 1 < fuel + ps
      → All Pair st.pairing
      → EndsWith Pair (recurse ps pe cs ce st)

  -- A call that ends is followed by the rest of the loop.
  after-EndsWith :
      (o : Option Aligned) (rest : Aligned → Option Aligned)
      → EndsWith Pair o
      → ((before : Aligned) → All Pair before.pairing → EndsWith Pair (rest before))
      → EndsWith Pair (elim o [ none ↦ none | some before ↦ rest before ])
  after-EndsWith none rest h f = h
  after-EndsWith (some before) rest h f = f before h

  align_pins-EndsWith :
      (fuel : ℕ) (recurse : Call) (pins : List AnchorPin) (ps pe cs ce : ℕ) (st : Aligned) (low : ℕ)
      → Promise fuel recurse
      → All (λ (pin : AnchorPin). Pair pin × ((low ≤ pin.prev_line) × (pin.prev_line ≤ pe))) pins
      → 1 ≤ low
      → pe ≤ length prev_lines
      → low ≤ ps
      → 1 ≤ cs
      → ce ≤ length curr_lines
      → 0 < fuel
      → pe < fuel + low
      → (length pins ≡ 0 → low < ps)
      → All Pair st.pairing
      → EndsWith Pair (align_pins recurse pins ps pe cs ce st)
  unfolding align_pins
  align_pins-EndsWith fuel recurse [] ps pe cs ce st low promise inside a b c e f z g shorter h =
      let less : low < ps = shorter refl in
      promise ps pe cs ce st (omega arith) b e f z (omega arith) h
  align_pins-EndsWith fuel recurse (pin ∷ pins) ps pe cs ce st low promise ((p, (l, u)), inside) a b
        c e f z g shorter h =
      after-EndsWith (recurse ps (pin.prev_line - 1) cs (pin.curr_line - 1) st)
        (λ before.
          align_pins recurse pins (pin.prev_line + 1) pe (pin.curr_line + 1) ce
            (record before { pairing = set_pair pin before.pairing }))
        (promise ps (pin.prev_line - 1) cs (pin.curr_line - 1) st (omega arith) (omega arith) e
          (omega (arith, p.3)) z (omega arith) h)
        (λ before k.
          align_pins-EndsWith fuel recurse pins (pin.prev_line + 1) pe (pin.curr_line + 1) ce
            (record before { pairing = set_pair pin before.pairing }) low promise inside a b
            (omega arith) (omega arith) f z g (λ empty. omega arith)
            (set_pair-All Pair pin before.pairing p k))

  align_stable-EndsWith :
      (fuel : ℕ) (recurse : Call) (pins : List AnchorPin) (leaf : Aligned) (ps pe cs ce : ℕ)
      (st : Aligned)
      → Promise fuel recurse
      → All (λ (pin : AnchorPin). Pair pin × ((ps ≤ pin.prev_line) × (pin.prev_line ≤ pe))) pins
      → 1 ≤ ps
      → pe ≤ length prev_lines
      → 1 ≤ cs
      → ce ≤ length curr_lines
      → pe < fuel + ps
      → All Pair leaf.pairing
      → All Pair st.pairing
      → EndsWith Pair (align_stable recurse pins leaf ps pe cs ce st)
  align_stable-EndsWith fuel recurse [] leaf ps pe cs ce st promise inside a b c d g l h = l
  align_stable-EndsWith fuel recurse (pin ∷ pins) leaf ps pe cs ce st promise inside a b c d g l h =
      align_pins-EndsWith fuel recurse (pin ∷ pins) ps pe cs ce st ps promise inside a b
        (omega arith) c d (omega (arith, inside.0.1.0, inside.0.1.1)) g (λ z. absurd (omega arith))
        h

  candidates-All :
      (ps pe cs ce : ℕ)
      → 1 ≤ ps
      → pe ≤ length prev_lines
      → 1 ≤ cs
      → ce ≤ length curr_lines
      → All
          (λ (pin : AnchorPin). Pair pin × ((ps ≤ pin.prev_line) × (pin.prev_line ≤ pe)))
          (find_stable_pin_backbone (find_unique_pins prev_lines curr_lines ps pe cs ce))
  candidates-All ps pe cs ce a b c d =
      find_stable_pin_backbone-All
        (λ (pin : AnchorPin). Pair pin × ((ps ≤ pin.prev_line) × (pin.prev_line ≤ pe)))
        (find_unique_pins prev_lines curr_lines ps pe cs ce)
        (All-imp (IsPairIn prev_lines curr_lines ps pe cs ce a b c d)
          (λ (pin : AnchorPin). Pair pin × ((ps ≤ pin.prev_line) × (pin.prev_line ≤ pe)))
          (find_unique_pins prev_lines curr_lines ps pe cs ce) (λ pin h. (h.0, (h.1.0, h.1.1)))
          (find_unique_pins-All_pair prev_lines curr_lines ps pe cs ce a b c d))

  align_recursive-EndsWith : (fuel : ℕ) → Promise fuel (align_recursive prev_lines curr_lines fuel)
  unfolding align_recursive
  align_recursive-EndsWith zero ps pe cs ce st a b c d z g h = elim z [ ]
  align_recursive-EndsWith (suc fuel) ps pe cs ce st a b c d z g h =
      by_test _ (ltb pe ps || ltb ce cs) (ltb st.scan_budget ((pe + 1 - ps) + (ce + 1 - cs))) (
        align_stable-EndsWith fuel (align_recursive prev_lines curr_lines fuel)
          (find_stable_pin_backbone (find_unique_pins prev_lines curr_lines ps pe cs ce))
          (align_leaf prev_lines curr_lines ps pe cs ce paid) ps pe cs ce paid
          (align_recursive-EndsWith fuel) (candidates-All ps pe cs ce a b c d) a b c d (omega arith)
          (align_leaf-All ps pe cs ce paid a b c d h) h)
    where
      paid : Aligned
      paid = record st { scan_budget = st.scan_budget - ((pe + 1 - ps) + (ce + 1 - cs)) }

      by_test :
          (deeper : Option Aligned) (empty poor : Bool)
          → EndsWith Pair deeper
          → EndsWith Pair (if empty then some st else if poor then some st else deeper)
      by_test deeper true poor k = h
      by_test deeper false true k = h
      by_test deeper false false k = k

-- What a pairing is: joined lines lie in the files and have the same key, and the new lines rise with
-- the old ones.
abbrev pub IsPairing : List Str → List Str → List AnchorPin → Type 0
IsPairing prev_lines curr_lines pairing =
    All (IsPair prev_lines curr_lines) pairing × (is_rising 0 (sort_pins pairing) ≡ true)

-- The recursion never runs out of fuel. The pairing it returns joins only lines of the files with the
-- same key, with the new lines rising with the old ones; any other pairing is refused.
pub pair_snapshots-IsPairing :
    (prev_lines curr_lines : List Str) (options : Option ℕ)
    → ((pairing : List AnchorPin) × (pair_snapshots prev_lines curr_lines options ≡ paired pairing)
        × IsPairing prev_lines curr_lines pairing)
      ⊎ (pair_snapshots prev_lines curr_lines options ≡ monotonicity_violation)
unfolding pair_snapshots assert_monotonic_pairing
pair_snapshots-IsPairing prev_lines curr_lines options =
    ended
      (align_recursive prev_lines curr_lines (length prev_lines + 2) 1 (length prev_lines) 1
        (length curr_lines)
        (record {
          scan_budget = budget_of options (length prev_lines) (length curr_lines);
          pairing = [];
        }))
      (align_recursive-EndsWith prev_lines curr_lines (length prev_lines + 2) 1 (length prev_lines)
        1 (length curr_lines)
        (record {
          scan_budget = budget_of options (length prev_lines) (length curr_lines);
          pairing = [];
        })
        (omega arith) (omega arith) (omega arith) (omega arith) (omega arith) (omega arith) tt)
  where
    ended :
        (o : Option Aligned)
        → EndsWith (IsPair prev_lines curr_lines) o
        → ((pairing : List AnchorPin) × (ended_in o ≡ paired pairing)
            × IsPairing prev_lines curr_lines pairing)
          ⊎ (ended_in o ≡ monotonicity_violation)
    ended none h = absurd h
    ended (some st) h = elim (Bool-cases (is_rising 0 (sort_pins st.pairing))) [
      | inl yes_rising ↦ inl (st.pairing, rw yes_rising refl, (h, yes_rising))
      | inr falls ↦ inr (rw falls refl)
    ]
