-- ===== src/Pairing/Lcs/Regions.antt =====
-- Longest matchings of a region of the tables and of the regions beside it.
use dsh_better_edit.Prelude.{
  ℕ, suc, ◌+◌, ◌<◌, ◌≤◌, ◌≡◌, ◌≢◌, refl, ap, sym, ◌∙◌, ◌⊎◌, inl, inr, List, [], ◌∷◌, Str, str_eq,
  get_or, length, arith,
}
use dsh_better_edit.Pairing.Pins.{AnchorPin}
use dsh_better_edit.Pairing.Lcs.{suffix_table, count_table, count_cell, at, trace}
use dsh_better_edit.Pairing.Lcs.Tables.{count_table-step}
use dsh_better_edit.Pairing.Lcs.Matching.{
  Embeds, IsLongest, longest, Embeds-mono, Embeds-cases, Embeds-le, longest-same, trace-IsLongest,
}

-- The corner of a region.
abbrev pub corner : ℕ → ℕ → AnchorPin
corner i j = record { prev_line = i; curr_line = j }

module _ (ps cs : List Str) where
  -- The cell of the table of counts.
  abbrev pub counted : ℕ → ℕ → ℕ
  counted i j = at (count_table ps cs (suffix_table ps cs)) i j

  abbrev pub AllEqual : ℕ → ℕ → Type 0
  AllEqual i j =
      (ms ns : List AnchorPin) → IsLongest ps cs i j ms → IsLongest ps cs i j ns → ms ≡ ns

  abbrev pub TwoOf : ℕ → ℕ → Type 0
  TwoOf i j =
      (ms : List AnchorPin) × (ns : List AnchorPin) × (IsLongest ps cs i j ms
        × (IsLongest ps cs i j ns × (ms ≢ ns)))

  -- The count is 1 or 2, and says whether there are two longest matchings.
  abbrev pub Counts : ℕ → ℕ → Type 0
  Counts i j = ((counted i j ≡ 1) × AllEqual i j) ⊎ ((counted i j ≡ 2) × TwoOf i j)

  abbrev pub traced : ℕ → ℕ → List AnchorPin
  traced i j = trace ps cs (suffix_table ps cs) (length ps + length cs) i j

  pub traced-IsLongest : (i j : ℕ) → IsLongest ps cs i j (traced i j)
  traced-IsLongest i j = trace-IsLongest ps cs (length ps + length cs) i j (omega arith)

  pub bounded :
      (i j : ℕ) (ms : List AnchorPin) → Embeds ps cs i j ms → length ms ≤ longest ps cs i j
  bounded i j ms e = Embeds-le ps cs (length ps + length cs) i j ms (omega arith) e

  -- A longest matching of a region inside, as long as the region's, is one of the region's.
  pub lift :
      (i j a b : ℕ) (ms : List AnchorPin)
      → i ≤ a
      → j ≤ b
      → longest ps cs a b ≡ longest ps cs i j
      → IsLongest ps cs a b ms
      → IsLongest ps cs i j ms
  lift i j a b ms h k same (e, l) = (Embeds-mono ps cs a b i j ms h k e, l ∙ same)

  pub longest_mono : (i j a b : ℕ) → i ≤ a → j ≤ b → longest ps cs a b ≤ longest ps cs i j
  longest_mono i j a b h k =
      let t : IsLongest ps cs a b (traced a b) = traced-IsLongest a b in
      omega (arith, t.1, bounded i j (traced a b) (Embeds-mono ps cs a b i j (traced a b) h k t.0))

  pub lift-TwoOf :
      (i j a b : ℕ) → i ≤ a → j ≤ b → longest ps cs a b ≡ longest ps cs i j → TwoOf a b → TwoOf i j
  lift-TwoOf i j a b h k same (ms, ns, (p, (q, ne))) =
      (ms, ns, (lift i j a b ms h k same p, (lift i j a b ns h k same q, ne)))

  -- A region whose longest matching is empty has one.
  pub empty-Counts : (i j : ℕ) → counted i j ≡ 1 → longest ps cs i j ≡ 0 → Counts i j
  empty-Counts i j one none_left =
      inl (one, λ ms ns p q. both_empty ms ns (p.1 ∙ none_left) (q.1 ∙ none_left))
    where
      both_empty : (ms ns : List AnchorPin) → length ms ≡ 0 → length ns ≡ 0 → ms ≡ ns
      both_empty [] [] h k = refl
      both_empty [] (n ∷ ns) h k = absurd (omega arith)
      both_empty (m ∷ ms) ns h k = absurd (omega arith)

  module _ (i j : ℕ) (inside_p : i < length ps) (inside_c : j < length cs)
      (some_left : longest ps cs i j ≢ 0) where
    -- A longest matching is not empty, and its first pair is the corner or it lies in a region beside it.
    pub beside :
        (ms : List AnchorPin)
        → IsLongest ps cs i j ms
        → ((rest : List AnchorPin) × (ms ≡ corner i j ∷ rest) × Embeds ps cs (suc i) (suc j) rest)
          ⊎ (Embeds ps cs (suc i) j ms ⊎ Embeds ps cs i (suc j) ms)
    beside [] (e, l) = absurd (some_left (sym l))
    beside (m ∷ ms) (e, l) = elim (Embeds-cases ps cs i j m ms e) [
      | inl (p, q) ↦ inl (
        ms,
        ap (λ x. x ∷ ms) (same_pin p q),
        Embeds-mono ps cs (suc m.prev_line) (suc m.curr_line) (suc i) (suc j) ms (omega arith)
            (omega arith) e.5,
      )
      | inr h ↦ inr h
    ]
      where
        same_pin : m.prev_line ≡ i → m.curr_line ≡ j → m ≡ corner i j
        same_pin p q = ground arith

    -- The corner in front of a longest matching of the region behind it.
    pub cons_corner :
        (ms : List AnchorPin)
        → get_or ps i [] ≡ get_or cs j []
        → IsLongest ps cs (suc i) (suc j) ms
        → IsLongest ps cs i j (corner i j ∷ ms)
    cons_corner ms same (e, l) = (
      (omega arith, omega arith, inside_p, inside_c, same, e),
      omega (arith, l, longest-same ps cs i j inside_p inside_c same),
    )

    -- A matching of the region below does not start with the corner.
    pub below-ne_corner :
        (ms rest : List AnchorPin) → Embeds ps cs (suc i) j ms → ms ≢ corner i j ∷ rest
    below-ne_corner [] rest e same = cc
    below-ne_corner (m ∷ ms) rest e same =
        let first : m ≡ corner i j = cc in absurd (omega (arith, e.0, ap (λ x. x.prev_line) first))

    pub right-ne_corner :
        (ms rest : List AnchorPin) → Embeds ps cs i (suc j) ms → ms ≢ corner i j ∷ rest
    right-ne_corner [] rest e same = cc
    right-ne_corner (m ∷ ms) rest e same =
        let first : m ≡ corner i j = cc in absurd (omega (arith, e.1, ap (λ x. x.curr_line) first))

    -- The cell of the region, from the cells beside it.
    pub cell :
        counted i j
        ≡ count_cell
            (str_eq (get_or ps i []) (get_or cs j []))
            (longest ps cs i j)
            (longest ps cs (suc i) (suc j))
            (longest ps cs (suc i) j)
            (longest ps cs i (suc j))
            (counted (suc i) (suc j))
            (counted (suc i) j)
            (counted i (suc j))
    cell = count_table-step ps cs (suffix_table ps cs) i j inside_p inside_c
