-- ===== src/Pairing/Lcs/Matching.antt =====
-- Matchings of two lists of keys, and the length of the longest one in each region of the table.
use dsh_better_edit.Prelude.{
  ℕ, zero, suc, ◌+◌, ◌<◌, ◌≤◌, ◌≡◌, refl, ap, sym, ◌∙◌, ◌⊎◌, inl, inr, Bool, true, false, ◌&&◌,
  List, [], ◌∷◌, Str, if◌then◌else◌, ltb, ◌==◌, str_eq, str_eq_sound, str_eq-ne, str_eq_refl,
  Bool-cases, get_or, length, max, arith, dec_lt,
}
use dsh_better_edit.Pairing.Pins.{AnchorPin}
use dsh_better_edit.Pairing.Lcs.{suffix_table, at, trace}
use dsh_better_edit.Pairing.Lcs.Tables.{suffix_table-step, suffix_table-end}

-- A matching from the indices `i` and `j` on: pairs of equal keys, increasing on both sides.
abbrev pub Embeds : List Str → List Str → ℕ → ℕ → List AnchorPin → Type 0
Embeds ps cs i j [] = Unit
Embeds ps cs i j (m ∷ ms) =
    (i ≤ m.prev_line)
    × (j ≤ m.curr_line)
    × (m.prev_line < length ps)
    × (m.curr_line < length cs)
    × (get_or ps m.prev_line [] ≡ get_or cs m.curr_line [])
    × Embeds ps cs (suc m.prev_line) (suc m.curr_line) ms

-- The cell of the table of suffix lengths.
abbrev pub longest : List Str → List Str → ℕ → ℕ → ℕ
longest ps cs i j = at (suffix_table ps cs) i j

-- A longest matching.
abbrev pub IsLongest : List Str → List Str → ℕ → ℕ → List AnchorPin → Type 0
IsLongest ps cs i j ms = Embeds ps cs i j ms × (length ms ≡ longest ps cs i j)

module _ (ps cs : List Str) where
  pub Embeds-mono :
      (i j i' j' : ℕ) (ms : List AnchorPin)
      → i' ≤ i
      → j' ≤ j
      → Embeds ps cs i j ms
      → Embeds ps cs i' j' ms
  Embeds-mono i j i' j' [] h k e = tt
  Embeds-mono i j i' j' (m ∷ ms) h k (a, b, c, d, q, rest) =
      (omega arith, omega arith, c, d, q, rest)

  -- The first pair of a matching is the corner of the region, or leaves one of its two lines out.
  pub Embeds-cases :
      (i j : ℕ) (m : AnchorPin) (ms : List AnchorPin)
      → Embeds ps cs i j (m ∷ ms)
      → ((m.prev_line ≡ i) × (m.curr_line ≡ j))
        ⊎ (Embeds ps cs (suc i) j (m ∷ ms) ⊎ Embeds ps cs i (suc j) (m ∷ ms))
  Embeds-cases i j m ms (a, b, c, d, e, rest) = elim (dec_lt i m.prev_line) [
    | yes p ↦ inr (inl (p, b, c, d, e, rest))
    | no p ↦ elim (dec_lt j m.curr_line) [
      | yes q ↦ inr (inr (a, q, c, d, e, rest))
      | no q ↦ inl (omega arith, omega arith)
    ]
  ]

  -- The recurrence of the lengths, by the keys in the corner.
  pub longest-same :
      (i j : ℕ)
      → i < length ps
      → j < length cs
      → get_or ps i [] ≡ get_or cs j []
      → longest ps cs i j ≡ longest ps cs (suc i) (suc j) + 1
  longest-same i j h k same = suffix_table-step ps cs i j h k ∙ rw (str_eq_of same) refl
    where
      str_eq_of : {s t : Str} → s ≡ t → str_eq s t ≡ true
      str_eq_of {s} {t} e = rw e (str_eq_refl t)

  pub longest-differ :
      (i j : ℕ)
      → i < length ps
      → j < length cs
      → str_eq (get_or ps i []) (get_or cs j []) ≡ false
      → longest ps cs i j ≡ max (longest ps cs (suc i) j) (longest ps cs i (suc j))
  longest-differ i j h k differ = suffix_table-step ps cs i j h k ∙ rw differ refl

  -- No matching is longer than the cell says.
  pub Embeds-le :
      (n i j : ℕ) (ms : List AnchorPin)
      → length ps + length cs ≤ n + i + j
      → Embeds ps cs i j ms
      → length ms ≤ longest ps cs i j
  Embeds-le n i j [] le e = omega arith
  Embeds-le zero i j (m ∷ ms) le (a, b, c, d, q, rest) = absurd (omega arith)
  Embeds-le (suc n) i j (m ∷ ms) le e =
      elim (Bool-cases (str_eq (get_or ps i []) (get_or cs j []))) [
        | inl same ↦
            rw
              (longest-same i j (omega (arith, e.0, e.2)) (omega (arith, e.1, e.3))
                (str_eq_sound (get_or ps i []) (get_or cs j []) same))
              (omega (
                arith,
                Embeds-le n (suc i) (suc j) ms (omega arith) (
                    Embeds-mono (suc m.prev_line) (suc m.curr_line) (suc i) (suc j) ms
                      (omega (arith, e.0)) (omega (arith, e.1)) e.5),
              ))
        | inr differ ↦
            rw (longest-differ i j (omega (arith, e.0, e.2)) (omega (arith, e.1, e.3)) differ)
              (elim (Embeds-cases i j m ms e) [
                | inl (p, q) ↦ absurd (
                    str_eq-ne (get_or ps i []) (get_or cs j []) differ
                      (ap (λ x. get_or ps x []) (sym p) ∙ e.4 ∙ ap (λ x. get_or cs x []) q))
                | inr (inl down) ↦ omega (arith, Embeds-le n (suc i) j (m ∷ ms) (omega arith) down)
                | inr (inr right) ↦
                    omega (arith, Embeds-le n i (suc j) (m ∷ ms) (omega arith) right)
              ])
      ]

  pub longest-end : (i j : ℕ) → (length ps ≤ i) ⊎ (length cs ≤ j) → longest ps cs i j ≡ 0
  longest-end i j h = suffix_table-end ps cs i j h

  -- What a round of the traceback returns, by its five tests.
  abbrev pick :
      ℕ
      → ℕ
      → Bool
      → Bool
      → Bool
      → Bool
      → Bool
      → List AnchorPin
      → List AnchorPin
      → List AnchorPin
      → List AnchorPin
  pick i j inside zero_left match_both skip_both skip_down both down right =
      if inside
      then (if zero_left
          then []
          else if match_both
          then record { prev_line = i; curr_line = j } ∷ both
          else if skip_both
          then both
          else if skip_down
          then down
          else right)
      else []

  trace-round :
      (n i j : ℕ)
      → trace ps cs (suffix_table ps cs) (suc n) i j
        ≡ pick i j
            (ltb i (length ps) && ltb j (length cs))
            (longest ps cs i j == 0)
            (str_eq (get_or ps i []) (get_or cs j [])
              && (longest ps cs (suc i) (suc j) + 1 == longest ps cs i j))
            (longest ps cs (suc i) (suc j) == longest ps cs i j)
            (longest ps cs (suc i) j == longest ps cs i j)
            (trace ps cs (suffix_table ps cs) n (suc i) (suc j))
            (trace ps cs (suffix_table ps cs) n (suc i) j)
            (trace ps cs (suffix_table ps cs) n i (suc j))
  unfolding trace
  trace-round n i j = refl

  -- A cell whose keys differ, and that is not the one below, is the one to the right.
  longest-right :
      (i j : ℕ)
      → i < length ps
      → j < length cs
      → (str_eq (get_or ps i []) (get_or cs j [])
          && (longest ps cs (suc i) (suc j) + 1 == longest ps cs i j))
        ≡ false
      → (longest ps cs (suc i) j == longest ps cs i j) ≡ false
      → longest ps cs i (suc j) ≡ longest ps cs i j
  longest-right i j h k other below = elim (Bool-cases (str_eq (get_or ps i []) (get_or cs j []))) [
    | inl same ↦
        ground (arith, longest-same i j h k (str_eq_sound (get_or ps i []) (get_or cs j []) same))
    | inr differ ↦ ground (arith, longest-differ i j h k differ)
  ]

  pick-IsLongest :
      (i j : ℕ) (inside zero_left match_both skip_both skip_down : Bool)
      (both down right : List AnchorPin)
      → (ltb i (length ps) && ltb j (length cs)) ≡ inside
      → (longest ps cs i j == 0) ≡ zero_left
      → (str_eq (get_or ps i []) (get_or cs j [])
          && (longest ps cs (suc i) (suc j) + 1 == longest ps cs i j))
        ≡ match_both
      → (longest ps cs (suc i) (suc j) == longest ps cs i j) ≡ skip_both
      → (longest ps cs (suc i) j == longest ps cs i j) ≡ skip_down
      → IsLongest ps cs (suc i) (suc j) both
      → IsLongest ps cs (suc i) j down
      → IsLongest ps cs i (suc j) right
      → IsLongest ps cs i j
          (pick i j inside zero_left match_both skip_both skip_down both down right)
  pick-IsLongest i j false z m b d both down right e1 e2 e3 e4 e5 hb hd hr =
      (tt, sym (longest-end i j (outside (length ps) (length cs) e1)))
    where
      outside : (p c : ℕ) → (ltb i p && ltb j c) ≡ false → (p ≤ i) ⊎ (c ≤ j)
      outside p c e = elim (dec_lt i p) [ yes h ↦ inr (ground arith) | no h ↦ inl (omega arith) ]
  pick-IsLongest i j true true m b d both down right e1 e2 e3 e4 e5 hb hd hr = (tt, ground arith)
  pick-IsLongest i j true false true b d both down right e1 e2 e3 e4 e5 hb hd hr = (
    (
      omega arith,
      omega arith,
      ground arith,
      ground arith,
      str_eq_sound (get_or ps i []) (get_or cs j []) (ground arith),
      hb.0,
    ),
    ground arith,
  )
  pick-IsLongest i j true false false true d both down right e1 e2 e3 e4 e5 hb hd hr =
      (Embeds-mono (suc i) (suc j) i j both (omega arith) (omega arith) hb.0, ground arith)
  pick-IsLongest i j true false false false true both down right e1 e2 e3 e4 e5 hb hd hr =
      (Embeds-mono (suc i) j i j down (omega arith) (omega arith) hd.0, ground arith)
  pick-IsLongest i j true false false false false both down right e1 e2 e3 e4 e5 hb hd hr = (
    Embeds-mono i (suc j) i j right (omega arith) (omega arith) hr.0,
    hr.1 ∙ longest-right i j (ground arith) (ground arith) e3 e5,
  )

  -- The traceback from a corner is a longest matching of its region.
  pub trace-IsLongest :
      (n i j : ℕ)
      → length ps + length cs ≤ n + i + j
      → IsLongest ps cs i j (trace ps cs (suffix_table ps cs) n i j)
  trace-IsLongest zero i j le =
      unfold trace in (tt, sym (longest-end i j (past (dec_lt i (length ps)))))
    where
      past : Dec (i < length ps) → (length ps ≤ i) ⊎ (length cs ≤ j)
      past (yes p) = inr (omega arith)
      past (no p) = inl (omega arith)
  trace-IsLongest (suc n) i j le = rw (trace-round n i j) (
      pick-IsLongest i j (ltb i (length ps) && ltb j (length cs)) (longest ps cs i j == 0)
        (str_eq (get_or ps i []) (get_or cs j [])
          && (longest ps cs (suc i) (suc j) + 1 == longest ps cs i j))
        (longest ps cs (suc i) (suc j) == longest ps cs i j)
        (longest ps cs (suc i) j == longest ps cs i j)
        (trace ps cs (suffix_table ps cs) n (suc i) (suc j))
        (trace ps cs (suffix_table ps cs) n (suc i) j)
        (trace ps cs (suffix_table ps cs) n i (suc j)) refl refl refl refl refl
        (trace-IsLongest n (suc i) (suc j) (omega arith))
        (trace-IsLongest n (suc i) j (omega arith)) (trace-IsLongest n i (suc j) (omega arith)))
