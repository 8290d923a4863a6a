-- ===== src/Pairing/Lcs/Same.antt =====
-- The count of a region whose corner matches.
use dsh_better_edit.Prelude.{
  ℕ, suc, ◌+◌, ◌<◌, ◌≤◌, ◌≡◌, ◌≢◌, ap, sym, ◌∙◌, ◌⊎◌, inl, inr, true, List, [], ◌∷◌, Str, str_eq,
  str_eq_sound, get_or, length, arith, ℕ_discrete,
}
use dsh_better_edit.Pairing.Pins.{AnchorPin}
use dsh_better_edit.Pairing.Lcs.{count_cell}
use dsh_better_edit.Pairing.Lcs.Matching.{IsLongest, longest, longest-same}
use dsh_better_edit.Pairing.Lcs.Regions.{
  corner, counted, Counts, traced, traced-IsLongest, bounded, lift, longest_mono, beside,
  cons_corner, below-ne_corner, right-ne_corner, cell,
}

module _ (ps cs : List Str) (i j : ℕ) (inside_p : i < length ps) (inside_c : j < length cs)
    (some_left : longest ps cs i j ≢ 0)
    (same : str_eq (get_or ps i []) (get_or cs j []) ≡ true) where
  keys : get_or ps i [] ≡ get_or cs j []
  keys = str_eq_sound (get_or ps i []) (get_or cs j []) same

  grown : longest ps cs (suc i) (suc j) + 1 ≡ longest ps cs i j
  grown = sym (longest-same ps cs i j inside_p inside_c keys)

  cell_two :
      (1 ≤ counted ps cs (suc i) (suc j))
      → (2 ≤ counted ps cs (suc i) (suc j))
        ⊎ (((longest ps cs (suc i) j ≡ longest ps cs i j) × (1 ≤ counted ps cs (suc i) j))
            ⊎ ((longest ps cs i (suc j) ≡ longest ps cs i j) × (1 ≤ counted ps cs i (suc j))))
      → counted ps cs i j ≡ 2
  unfolding count_cell
  cell_two pos (inl two) =
      rw (cell ps cs i j inside_p inside_c some_left, same) (ground (arith, grown))
  cell_two pos (inr (inl (n, k))) =
      rw (cell ps cs i j inside_p inside_c some_left, same) (ground (arith, grown))
  cell_two pos (inr (inr (r, k))) =
      rw (cell ps cs i j inside_p inside_c some_left, same) (ground (arith, grown))

  cell_one :
      counted ps cs (suc i) (suc j) ≡ 1
      → longest ps cs (suc i) j ≢ longest ps cs i j
      → longest ps cs i (suc j) ≢ longest ps cs i j
      → counted ps cs i j ≡ 1
  unfolding count_cell
  cell_one one n r = rw (cell ps cs i j inside_p inside_c some_left, same) (ground (arith, grown))

  -- With shorter regions below and to the right, every longest matching starts with the corner.
  starts :
      longest ps cs (suc i) j ≢ longest ps cs i j
      → longest ps cs i (suc j) ≢ longest ps cs i j
      → (ms : List AnchorPin) → IsLongest ps cs i j ms
      → (rest : List AnchorPin) × (ms ≡ corner i j ∷ rest) × IsLongest ps cs (suc i) (suc j) rest
  starts n r ms h = elim (beside ps cs i j inside_p inside_c some_left ms h) [
    | inl (rest, e, inner) ↦ (rest, e, (inner, omega (arith, grown, h.1, ap length e)))
    | inr (inl down) ↦
        absurd (
          n (omega (arith, h.1, bounded ps cs (suc i) j ms down, longest_mono ps cs i j (suc i) j)))
    | inr (inr right) ↦
        absurd (
          r (
            omega (arith, h.1, bounded ps cs i (suc j) ms right, longest_mono ps cs i j i (suc j))))
  ]

  pub same-Counts :
      Counts ps cs (suc i) (suc j)
      → Counts ps cs (suc i) j
      → Counts ps cs i (suc j)
      → Counts ps cs i j
  same-Counts (inr (two, (ms, ns, (p, (q, ne))))) down right = inr (
    cell_two (omega arith) (inl (omega arith)),
    (
      corner i j ∷ ms,
      corner i j ∷ ns,
      (
        cons_corner ps cs i j inside_p inside_c some_left ms keys p,
        (cons_corner ps cs i j inside_p inside_c some_left ns keys q, λ e. ne (tails e)),
      ),
    ),
  )
    where
      tails : {xs ys : List AnchorPin} → corner i j ∷ xs ≡ corner i j ∷ ys → xs ≡ ys
      tails e = cc
  same-Counts (inl (one, equal)) down right =
      elim (ℕ_discrete (longest ps cs (suc i) j) (longest ps cs i j)) [
        | yes n ↦ inr (
          cell_two (omega arith) (inr (inl (n, positive (suc i) j down))),
          (
            traced ps cs (suc i) j,
            corner i j ∷ traced ps cs (suc i) (suc j),
            (
              lift ps cs i j (suc i) j (traced ps cs (suc i) j) (omega arith) (omega arith) n
                  (traced-IsLongest ps cs (suc i) j),
              (
                cons_corner ps cs i j inside_p inside_c some_left (traced ps cs (suc i) (suc j))
                    keys (traced-IsLongest ps cs (suc i) (suc j)),
                below-ne_corner ps cs i j inside_p inside_c some_left (traced ps cs (suc i) j)
                    (traced ps cs (suc i) (suc j)) (traced-IsLongest ps cs (suc i) j).0,
              ),
            ),
          ),
        )
        | no n ↦ elim (ℕ_discrete (longest ps cs i (suc j)) (longest ps cs i j)) [
          | yes r ↦ inr (
            cell_two (omega arith) (inr (inr (r, positive i (suc j) right))),
            (
              traced ps cs i (suc j),
              corner i j ∷ traced ps cs (suc i) (suc j),
              (
                lift ps cs i j i (suc j) (traced ps cs i (suc j)) (omega arith) (omega arith) r
                    (traced-IsLongest ps cs i (suc j)),
                (
                  cons_corner ps cs i j inside_p inside_c some_left (traced ps cs (suc i) (suc j))
                      keys (traced-IsLongest ps cs (suc i) (suc j)),
                  right-ne_corner ps cs i j inside_p inside_c some_left (traced ps cs i (suc j))
                      (traced ps cs (suc i) (suc j)) (traced-IsLongest ps cs i (suc j)).0,
                ),
              ),
            ),
          )
          | no r ↦ inl (
            cell_one one n r,
            λ ms ns p q.
                let a = starts n r ms p in
                let b = starts n r ns q in
                a.1 ∙ ap (λ t. corner i j ∷ t) (equal a.0 b.0 a.2 b.2) ∙ sym b.1,
          )
        ]
      ]
    where
      positive : (a b : ℕ) → Counts ps cs a b → 1 ≤ counted ps cs a b
      positive a b (inl (k, h)) = omega arith
      positive a b (inr (k, h)) = omega arith
