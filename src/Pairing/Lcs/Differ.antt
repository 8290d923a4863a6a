-- ===== src/Pairing/Lcs/Differ.antt =====
-- The count of a region whose corner does not match.
use mathlib.Core.Path.{subst}
use dsh_better_edit.Prelude.{
  ℕ, suc, ◌+◌, ◌<◌, ◌≤◌, ◌≡◌, ◌≢◌, refl, sym, ◌∙◌, ◌⊎◌, inl, inr, false, List, [], ◌∷◌, Str,
  if◌then◌else◌, ltb, str_eq, str_eq-ne, get_or, length, max, arith, ℕ_discrete,
}
use dsh_better_edit.Pairing.Pins.{AnchorPin}
use dsh_better_edit.Pairing.Lcs.{count_cell}
use dsh_better_edit.Pairing.Lcs.Matching.{Embeds, IsLongest, longest, longest-differ}
use dsh_better_edit.Pairing.Lcs.Regions.{
  corner, counted, AllEqual, TwoOf, Counts, traced, traced-IsLongest, bounded, lift, longest_mono,
  lift-TwoOf, beside, cell,
}

module _ (ps cs : List Str) (i j : ℕ) (inside_p : i < length ps) (inside_c : j < length cs)
    (some_left : longest ps cs i j ≢ 0)
    (differ : str_eq (get_or ps i []) (get_or cs j []) ≡ false) where
  -- A longest matching lies in the region below or in the one to the right.
  leaves :
      (ms : List AnchorPin)
      → IsLongest ps cs i j ms
      → Embeds ps cs (suc i) j ms ⊎ Embeds ps cs i (suc j) ms
  leaves ms h = elim (beside ps cs i j inside_p inside_c some_left ms h) [
    | inl (rest, e, inner) ↦
        let start : IsLongest ps cs i j (corner i j ∷ rest) = subst (IsLongest ps cs i j) e h in
        absurd (str_eq-ne (get_or ps i []) (get_or cs j []) differ start.0.4)
    | inr sides ↦ sides
  ]

  in_below :
      longest ps cs i (suc j) ≢ longest ps cs i j
      → (ms : List AnchorPin) → IsLongest ps cs i j ms
      → (longest ps cs (suc i) j ≡ longest ps cs i j)
      → IsLongest ps cs (suc i) j ms
  in_below r ms h n = elim (leaves ms h) [
    | inl down ↦ (down, omega (arith, h.1))
    | inr right ↦
        absurd (
          r (
            omega (arith, h.1, bounded ps cs i (suc j) ms right, longest_mono ps cs i j i (suc j))))
  ]

  in_right :
      longest ps cs (suc i) j ≢ longest ps cs i j
      → (ms : List AnchorPin) → IsLongest ps cs i j ms
      → (longest ps cs i (suc j) ≡ longest ps cs i j)
      → IsLongest ps cs i (suc j) ms
  in_right n ms h r = elim (leaves ms h) [
    | inl down ↦
        absurd (
          n (omega (arith, h.1, bounded ps cs (suc i) j ms down, longest_mono ps cs i j (suc i) j)))
    | inr right ↦ (right, omega (arith, h.1))
  ]

  larger : longest ps cs i j ≡ max (longest ps cs (suc i) j) (longest ps cs i (suc j))
  larger = longest-differ ps cs i j inside_p inside_c differ

  cell_below :
      (k : ℕ)
      → (k ≡ 1) ⊎ (k ≡ 2)
      → counted ps cs (suc i) j ≡ k
      → longest ps cs (suc i) j ≡ longest ps cs i j
      → longest ps cs i (suc j) ≢ longest ps cs i j
      → counted ps cs i j ≡ k
  unfolding count_cell
  cell_below k small e n r =
      let d : longest ps cs (suc i) (suc j) ≤ longest ps cs i (suc j) =
        longest_mono ps cs i (suc j) (suc i) (suc j) (omega arith) (omega arith) in
      let le : longest ps cs i (suc j) ≤ longest ps cs i j =
        longest_mono ps cs i j i (suc j) (omega arith) (omega arith) in
      rw (cell ps cs i j inside_p inside_c some_left, differ) (ground arith)

  cell_right :
      (k : ℕ)
      → (k ≡ 1) ⊎ (k ≡ 2)
      → counted ps cs i (suc j) ≡ k
      → longest ps cs (suc i) j ≢ longest ps cs i j
      → longest ps cs i (suc j) ≡ longest ps cs i j
      → counted ps cs i j ≡ k
  unfolding count_cell
  cell_right k small e n r =
      let d : longest ps cs (suc i) (suc j) ≤ longest ps cs (suc i) j =
        longest_mono ps cs (suc i) j (suc i) (suc j) (omega arith) (omega arith) in
      let le : longest ps cs (suc i) j ≤ longest ps cs i j =
        longest_mono ps cs i j (suc i) j (omega arith) (omega arith) in
      rw (cell ps cs i j inside_p inside_c some_left, differ) (ground arith)

  cell_overlap :
      (k : ℕ)
      → longest ps cs (suc i) j ≡ longest ps cs i j
      → longest ps cs i (suc j) ≡ longest ps cs i j
      → longest ps cs (suc i) (suc j) ≡ longest ps cs i j
      → counted ps cs (suc i) j + counted ps cs i (suc j) ≡ k + counted ps cs (suc i) (suc j)
      → counted ps cs i j ≡ (if ltb 2 k then 2 else k)
  unfolding count_cell
  cell_overlap k n r d e = rw (cell ps cs i j inside_p inside_c some_left, differ) (ground arith)

  cell_apart :
      longest ps cs (suc i) j ≡ longest ps cs i j
      → longest ps cs i (suc j) ≡ longest ps cs i j
      → longest ps cs (suc i) (suc j) ≢ longest ps cs i j
      → 2 ≤ counted ps cs (suc i) j + counted ps cs i (suc j)
      → counted ps cs i j ≡ 2
  unfolding count_cell
  cell_apart n r d e = rw (cell ps cs i j inside_p inside_c some_left, differ) (ground arith)

  -- A matching of both sides is one of the region behind the corner.
  both_sides :
      (ms : List AnchorPin)
      → Embeds ps cs (suc i) j ms
      → Embeds ps cs i (suc j) ms
      → Embeds ps cs (suc i) (suc j) ms
  both_sides [] e f = tt
  both_sides (m ∷ ms) (a, b, c, d, e, rest) f = (a, f.1, c, d, e, rest)

  pos : (a b : ℕ) → Counts ps cs a b → 1 ≤ counted ps cs a b
  pos a b (inl (k, h)) = omega arith
  pos a b (inr (k, h)) = omega arith

  -- Both sides reach the length, and so does the region behind the corner.
  overlap-Counts :
      longest ps cs (suc i) j ≡ longest ps cs i j
      → longest ps cs i (suc j) ≡ longest ps cs i j
      → longest ps cs (suc i) (suc j) ≡ longest ps cs i j
      → Counts ps cs (suc i) (suc j)
      → Counts ps cs (suc i) j
      → Counts ps cs i (suc j)
      → Counts ps cs i j
  overlap-Counts n r d (inr (two, pair)) (inl (k, equal)) right = absurd (
      two_not_equal
        (lift-TwoOf ps cs (suc i) j (suc i) (suc j) (omega arith) (omega arith) (d ∙ sym n) pair)
        equal)
    where
      two_not_equal : TwoOf ps cs (suc i) j → AllEqual ps cs (suc i) j → ⊥
      two_not_equal (ms, ns, (p, (q, ne))) eq = ne (eq ms ns p q)
  overlap-Counts n r d (inr (two, pair)) (inr (k, down)) (inl (l, equal)) = absurd (
      two_not_equal
        (lift-TwoOf ps cs i (suc j) (suc i) (suc j) (omega arith) (omega arith) (d ∙ sym r) pair)
        equal)
    where
      two_not_equal : TwoOf ps cs i (suc j) → AllEqual ps cs i (suc j) → ⊥
      two_not_equal (ms, ns, (p, (q, ne))) eq = ne (eq ms ns p q)
  overlap-Counts n r d (inr (two, pair)) (inr (k, down)) (inr (l, right)) = inr (
    cell_overlap 2 n r d (omega arith),
    lift-TwoOf ps cs i j (suc i) j (omega arith) (omega arith) n down,
  )
  overlap-Counts n r d (inl (one, equal)) (inr (k, down)) right =
      inr (
        overlap_two (k_of right),
        lift-TwoOf ps cs i j (suc i) j (omega arith) (omega arith) n down,
      )
    where
      k_of : Counts ps cs i (suc j) → (counted ps cs i (suc j) ≡ 1) ⊎ (counted ps cs i (suc j) ≡ 2)
      k_of (inl (a, h)) = inl a
      k_of (inr (a, h)) = inr a

      overlap_two :
          (counted ps cs i (suc j) ≡ 1) ⊎ (counted ps cs i (suc j) ≡ 2) → counted ps cs i j ≡ 2
      overlap_two (inl a) = cell_overlap 2 n r d (omega arith)
      overlap_two (inr a) = cell_overlap 3 n r d (omega arith)
  overlap-Counts n r d (inl (one, equal)) (inl (k, down)) (inr (l, right)) = inr (
    cell_overlap 2 n r d (omega arith),
    lift-TwoOf ps cs i j i (suc j) (omega arith) (omega arith) r right,
  )
  overlap-Counts n r d (inl (one, equal)) (inl (k, down)) (inl (l, right)) =
      inl (cell_overlap 1 n r d (omega arith), λ ms ns p q. only ms p ∙ sym (only ns q))
    where
      behind : List AnchorPin
      behind = traced ps cs (suc i) (suc j)

      only : (ms : List AnchorPin) → IsLongest ps cs i j ms → ms ≡ behind
      only ms p = elim (leaves ms p) [
        | inl e ↦
            down ms behind (e, omega (arith, p.1))
              (lift ps cs (suc i) j (suc i) (suc j) behind (omega arith) (omega arith) (d ∙ sym n)
                (traced-IsLongest ps cs (suc i) (suc j)))
        | inr e ↦
            right ms behind (e, omega (arith, p.1))
              (lift ps cs i (suc j) (suc i) (suc j) behind (omega arith) (omega arith) (d ∙ sym r)
                (traced-IsLongest ps cs (suc i) (suc j)))
      ]

  -- Both sides reach the length, and the region behind the corner does not.
  apart-Counts :
      longest ps cs (suc i) j ≡ longest ps cs i j
      → longest ps cs i (suc j) ≡ longest ps cs i j
      → longest ps cs (suc i) (suc j) ≢ longest ps cs i j
      → Counts ps cs (suc i) j
      → Counts ps cs i (suc j)
      → Counts ps cs i j
  apart-Counts n r d down right = inr (
    cell_apart n r d (omega (arith, pos (suc i) j down, pos i (suc j) right)),
    (
      traced ps cs (suc i) j,
      traced ps cs i (suc j),
      (
        lift ps cs i j (suc i) j (traced ps cs (suc i) j) (omega arith) (omega arith) n
            (traced-IsLongest ps cs (suc i) j),
        (
          lift ps cs i j i (suc j) (traced ps cs i (suc j)) (omega arith) (omega arith) r
              (traced-IsLongest ps cs i (suc j)),
          λ e. d (
              omega (
                arith,
                (traced-IsLongest ps cs (suc i) j).1,
                longest_mono ps cs i j (suc i) (suc j),
                bounded ps cs (suc i) (suc j) (traced ps cs (suc i) j) (
                    both_sides (traced ps cs (suc i) j) (traced-IsLongest ps cs (suc i) j).0 (
                      subst (Embeds ps cs i (suc j)) (sym e) (traced-IsLongest ps cs i (suc j)).0)),
              )),
        ),
      ),
    ),
  )

  pub differ-Counts :
      Counts ps cs (suc i) (suc j)
      → Counts ps cs (suc i) j
      → Counts ps cs i (suc j)
      → Counts ps cs i j
  differ-Counts behind down right =
      elim (ℕ_discrete (longest ps cs (suc i) j) (longest ps cs i j)) [
        | yes n ↦ elim (ℕ_discrete (longest ps cs i (suc j)) (longest ps cs i j)) [
          | yes r ↦ elim (ℕ_discrete (longest ps cs (suc i) (suc j)) (longest ps cs i j)) [
            | yes d ↦ overlap-Counts n r d behind down right
            | no d ↦ apart-Counts n r d down right
          ]
          | no r ↦ from_below n r down
        ]
        | no n ↦ from_right n (omega (arith, larger)) right
      ]
    where
      from_below :
          longest ps cs (suc i) j ≡ longest ps cs i j
          → longest ps cs i (suc j) ≢ longest ps cs i j
          → Counts ps cs (suc i) j
          → Counts ps cs i j
      from_below n r (inl (k, equal)) = inl (
        cell_below 1 (inl refl) k n r,
        λ ms ns p q. equal ms ns (in_below r ms p n) (in_below r ns q n),
      )
      from_below n r (inr (k, pair)) = inr (
        cell_below 2 (inr refl) k n r,
        lift-TwoOf ps cs i j (suc i) j (omega arith) (omega arith) n pair,
      )

      from_right :
          longest ps cs (suc i) j ≢ longest ps cs i j
          → longest ps cs i (suc j) ≡ longest ps cs i j
          → Counts ps cs i (suc j)
          → Counts ps cs i j
      from_right n r (inl (k, equal)) = inl (
        cell_right 1 (inl refl) k n r,
        λ ms ns p q. equal ms ns (in_right n ms p r) (in_right n ns q r),
      )
      from_right n r (inr (k, pair)) = inr (
        cell_right 2 (inr refl) k n r,
        lift-TwoOf ps cs i j i (suc j) (omega arith) (omega arith) r pair,
      )
