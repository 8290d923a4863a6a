-- ===== src/Pairing/Lcs/Unique.antt =====
-- The count of a region decides whether it has exactly one longest matching.
use dsh_better_edit.Prelude.{
  ℕ, zero, suc, ◌+◌, ◌<◌, ◌≤◌, ◌≡◌, ◌≢◌, refl, ◌∙◌, ◌⊎◌, inl, inr, true, false, List, [], Str,
  str_eq, Bool-cases, get_or, length, arith, dec_lt, ℕ_discrete,
}
use dsh_better_edit.Pairing.Pins.{AnchorPin}
use dsh_better_edit.Pairing.Lcs.{LcsAlignment, lcs_of, suffix_table, count_cell}
use dsh_better_edit.Pairing.Lcs.Tables.{
  count_table-step, count_table-last_row, count_table-last_column,
}
use dsh_better_edit.Pairing.Lcs.Matching.{Embeds, IsLongest, longest, longest-end}
use dsh_better_edit.Pairing.Lcs.Regions.{
  counted, Counts, traced, traced-IsLongest, bounded, empty-Counts,
}
use dsh_better_edit.Pairing.Lcs.Same.{same-Counts}
use dsh_better_edit.Pairing.Lcs.Differ.{differ-Counts}

module _ (ps cs : List Str) where
  cell_empty :
      (i j : ℕ) → i < length ps → j < length cs → longest ps cs i j ≡ 0 → counted ps cs i j ≡ 1
  unfolding count_cell
  cell_empty i j h k z = count_table-step ps cs (suffix_table ps cs) i j h k ∙ rw z refl

  edge-Counts :
      (i j : ℕ)
      → i ≤ length ps
      → j ≤ length cs
      → (i ≡ length ps) ⊎ (j ≡ length cs)
      → Counts ps cs i j
  edge-Counts i j hi hj (inl e) =
      empty-Counts ps cs i j (rw e (count_table-last_row ps cs (suffix_table ps cs) j hj))
        (longest-end ps cs i j (inl (omega arith)))
  edge-Counts i j hi hj (inr e) =
      empty-Counts ps cs i j (rw e (count_table-last_column ps cs (suffix_table ps cs) i hi))
        (longest-end ps cs i j (inr (omega arith)))

  -- A region inside the tables, from the three beside it.
  inner-Counts :
      (i j : ℕ)
      → i < length ps
      → j < length cs
      → Counts ps cs (suc i) (suc j)
      → Counts ps cs (suc i) j
      → Counts ps cs i (suc j)
      → Counts ps cs i j
  inner-Counts i j hi hj behind down right = elim (ℕ_discrete (longest ps cs i j) 0) [
    | yes z ↦ empty-Counts ps cs i j (cell_empty i j hi hj z) z
    | no some_left ↦ elim (Bool-cases (str_eq (get_or ps i []) (get_or cs j []))) [
      | inl same ↦ same-Counts ps cs i j hi hj some_left same behind down right
      | inr differ ↦ differ-Counts ps cs i j hi hj some_left differ behind down right
    ]
  ]

  -- Every region of the tables is counted ps cs rightly.
  pub region-Counts :
      (n i j : ℕ)
      → i ≤ length ps
      → j ≤ length cs
      → length ps + length cs ≤ n + i + j
      → Counts ps cs i j
  region-Counts zero i j hi hj le = edge-Counts i j hi hj (inl (omega arith))
  region-Counts (suc n) i j hi hj le = elim (dec_lt i (length ps)) [
    | no h ↦ edge-Counts i j hi hj (inl (omega arith))
    | yes h ↦ elim (dec_lt j (length cs)) [
      | no k ↦ edge-Counts i j hi hj (inr (omega arith))
      | yes k ↦
          inner-Counts i j h k
            (region-Counts n (suc i) (suc j) (omega arith) (omega arith) (omega arith))
            (region-Counts n (suc i) j (omega arith) hj (omega arith))
            (region-Counts n i (suc j) hi (omega arith) (omega arith))
    ]
  ]

-- A matching that no other exceeds.
abbrev pub IsMaximum : List Str → List Str → List AnchorPin → Type 0
IsMaximum ps cs ms =
    Embeds ps cs 0 0 ms × ((ns : List AnchorPin) → Embeds ps cs 0 0 ns → length ns ≤ length ms)

-- The only such matching.
abbrev pub IsOnlyMaximum : List Str → List Str → List AnchorPin → Type 0
IsOnlyMaximum ps cs ms = IsMaximum ps cs ms × ((ns : List AnchorPin) → IsMaximum ps cs ns → ns ≡ ms)

module _ (ps cs : List Str) where
  IsMaximum-IsLongest : (ms : List AnchorPin) → IsMaximum ps cs ms → IsLongest ps cs 0 0 ms
  IsMaximum-IsLongest ms (e, most) =
      let t : IsLongest ps cs 0 0 (traced ps cs 0 0) = traced-IsLongest ps cs 0 0 in
      (e, omega (arith, t.1, most (traced ps cs 0 0) t.0, bounded ps cs 0 0 ms e))

  IsLongest-IsMaximum : (ms : List AnchorPin) → IsLongest ps cs 0 0 ms → IsMaximum ps cs ms
  IsLongest-IsMaximum ms (e, l) = (e, λ ns f. omega (arith, l, bounded ps cs 0 0 ns f))

  -- What the alignment of a leaf says: its pairs are the only maximum, or there are two and it has none.
  abbrev pub Decides : LcsAlignment → Type 0
  Decides r =
      ((r.is_unique ≡ true) × IsOnlyMaximum ps cs r.pairs)
      ⊎ ((r.is_unique ≡ false)
          × (r.pairs ≡ [])
          × ((ms : List AnchorPin) × (ns : List AnchorPin) × (IsMaximum ps cs ms
                × (IsMaximum ps cs ns × (ms ≢ ns)))))

  -- A leaf is found unique exactly when one matching of equal keys, increasing on both sides, has the
  -- most pairs; its pairs are then that matching. Otherwise it has no pairs, and two such matchings.
  pub lcs_of-Decides : Decides (lcs_of ps cs)
  unfolding lcs_of
  lcs_of-Decides =
      decided
        (region-Counts ps cs (length ps + length cs) 0 0 (omega arith) (omega arith) (omega arith))
    where
      decided : Counts ps cs 0 0 → Decides (lcs_of ps cs)
      decided (inl (one, equal)) = inl (
        rw one refl,
        (
          rw one (IsLongest-IsMaximum (traced ps cs 0 0) (traced-IsLongest ps cs 0 0)),
          λ ns h.
              rw one (
                equal ns (traced ps cs 0 0) (IsMaximum-IsLongest ns h)
                  (traced-IsLongest ps cs 0 0)),
        ),
      )
      decided (inr (two, (ms, ns, (p, (q, ne))))) = inr (
        rw two refl,
        rw two refl,
        (ms, ns, (IsLongest-IsMaximum ms p, (IsLongest-IsMaximum ns q, ne))),
      )
