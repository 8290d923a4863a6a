-- ===== src/HashAssign/Stable/Nearest.antt =====
-- `nearestNew` returns the position of a candidate nearest to the target.
use dsh_better_edit.Prelude.{
  dec_lt, ◌⊎◌, ℕ, zero, suc, ◌+◌, ◌-◌, ◌/◌, ◌<◌, ◌≤◌, ◌≡◌, refl, ◌&&◌, ◌||◌, none, some, List, [],
  ltb, leb, get_or, length, arith, Bool-cases, inl, inr, ltb→lt,
}
use dsh_better_edit.HashAssign.Stable.{lower_loop, nearer, nearest_new}

-- Candidates stand in ascending order.
abbrev pub IsAscending : List ℕ → Type 0
IsAscending cs = (i j : ℕ) → i ≤ j → j < length cs → get_or cs i 0 ≤ get_or cs j 0

-- `r` splits the candidates into those below the target and the rest.
pub record Splits (cs : List ℕ) (target r : ℕ) : Type 0 where
  pub inside : r ≤ length cs
  pub below : (i : ℕ) → i < r → get_or cs i 0 < target
  pub above : (i : ℕ) → r ≤ i → i < length cs → target ≤ get_or cs i 0

module _ (cs : List ℕ) (target : ℕ) (ascending : IsAscending cs) where
  lower_loop-Splits :
      (fuel lo hi : ℕ)
      → hi - lo < fuel
      → lo ≤ hi
      → hi ≤ length cs
      → ((i : ℕ) → i < lo → get_or cs i 0 < target)
      → ((i : ℕ) → hi ≤ i → i < length cs → target ≤ get_or cs i 0)
      → Splits cs target (lower_loop fuel cs target lo hi)
  unfolding lower_loop
  lower_loop-Splits zero lo hi f o b below above = absurd (omega arith)
  lower_loop-Splits (suc fuel) lo hi f o b below above = elim (Bool-cases (ltb lo hi)) [
    | inr empty ↦
        let e : lo ≡ hi = ground arith in
        rw (empty, lower_loop)
          (record { inside = omega arith; below = below; above = rw (← e) at above })
    | inl more ↦
        let order : lo < hi = ltb→lt lo hi more in
        let mid : ℕ = (lo + hi) / 2 in
        elim (Bool-cases (ltb (get_or cs mid 0) target)) [
          | inl low ↦
              rw (more, low, lower_loop)
                (lower_loop-Splits fuel (mid + 1) hi (omega arith) (omega arith) b
                  (λ i h. omega (
                    arith,
                    ascending i mid (omega arith) (omega arith),
                    ltb→lt (get_or cs mid 0) target low,
                  ))
                  above)
          | inr high ↦
              let reach : target ≤ get_or cs mid 0 = ground arith in
              rw (more, high, lower_loop)
                (lower_loop-Splits fuel lo mid (omega arith) (omega arith) (omega arith) below
                  (λ i h k. omega (arith, ascending mid i (omega arith) k)))
        ]
  ]

  pub right_Splits : Splits cs target (lower_loop (suc (length cs)) cs target 0 (length cs))
  right_Splits =
      lower_loop-Splits (suc (length cs)) 0 (length cs) (omega arith) (omega arith) (omega arith)
        (λ i h. absurd (omega arith)) (λ i h k. absurd (omega arith))

-- The distance of two positions.
abbrev pub distance : ℕ → ℕ → ℕ
distance a b = (a - b) + (b - a)

module _ (cs : List ℕ) (target r : ℕ) (ascending : IsAscending cs) (s : Splits cs target r) where
  nearer-inside : (p : ℕ) → nearer cs target r ≡ some p → p < length cs
  unfolding nearer
  nearer-inside p e = ground (arith, s.inside)

  -- The two ways in which a position is chosen.
  nearer-cases :
      (p : ℕ)
      → nearer cs target r ≡ some p
      → ((0 < r)
          × (p ≡ r - 1)
          × ((length cs ≤ r) ⊎ (target + target ≤ get_or cs r 0 + get_or cs (r - 1) 0)))
        ⊎ ((p ≡ r)
            × (r < length cs)
            × ((r ≡ 0) ⊎ (get_or cs r 0 + get_or cs (r - 1) 0 < target + target)))
  unfolding nearer
  nearer-cases p e = ground arith

  nearer-nearest :
      (p j : ℕ)
      → nearer cs target r ≡ some p
      → j < length cs
      → distance (get_or cs p 0) target ≤ distance (get_or cs j 0) target
  nearer-nearest p j e h = elim (dec_lt j r) [
    | yes left ↦ elim (nearer-cases p e) [
      | inl (pos, at, best) ↦ rw at (
          omega (
            arith,
            ascending j (r - 1) (omega arith) (omega (arith, s.inside)),
            s.below (r - 1) (omega arith),
          ))
      | inr (at, within, best) ↦ rw at (
          omega (
            arith,
            ascending j (r - 1) (omega arith) (omega arith),
            s.below (r - 1) (omega arith),
            s.above r (omega arith) within,
            best,
          ))
    ]
    | no right ↦ elim (nearer-cases p e) [
      | inl (pos, at, best) ↦ rw at (
          omega (
            arith,
            ascending r j (omega arith) h,
            s.below (r - 1) (omega arith),
            s.above r (omega arith) (omega arith),
            best,
          ))
      | inr (at, within, best) ↦
          rw at (omega (arith, ascending r j (omega arith) h, s.above r (omega arith) within))
    ]
  ]

  nearer-total : 0 < length cs → (p : ℕ) × (nearer cs target r ≡ some p)
  unfolding nearer
  nearer-total h = elim (dec_lt r (length cs)) [
    | yes within ↦
        elim (Bool-cases (
          ltb 0 r
          && (leb (length cs) r || leb (target + target) (get_or cs r 0 + get_or cs (r - 1) 0)))) [
            | inl left ↦ (r - 1, ground arith)
            | inr right ↦ (r, ground arith)
          ]
    | no past ↦ (r - 1, ground (arith, s.inside))
  ]

-- Among ascending candidates, of which there is one, a position in the list is found, and no candidate
-- is nearer to the target than the one there.
pub nearest_new-nearest :
    (cs : List ℕ) (target j : ℕ)
    → IsAscending cs
    → j < length cs
    → (p : ℕ) × (nearest_new cs target ≡ some p)
      × (p < length cs)
      × (distance (get_or cs p 0) target ≤ distance (get_or cs j 0) target)
unfolding nearest_new
nearest_new-nearest cs target j ascending h =
    let r : ℕ = lower_loop (suc (length cs)) cs target 0 (length cs) in
    let s : Splits cs target r = right_Splits cs target ascending in
    let (p, found) = nearer-total cs target r ascending s (omega arith) in
    (
      p,
      found,
      nearer-inside cs target r ascending s p found,
      nearer-nearest cs target r ascending s p j found h,
    )

pub nearest_new-nil : (target : ℕ) → nearest_new [] target ≡ none
unfolding nearest_new nearer lower_loop
nearest_new-nil target = refl

lower_loop-le :
    (fuel : ℕ) (cs : List ℕ) (target lo hi : ℕ) → lo ≤ hi → lower_loop fuel cs target lo hi ≤ hi
unfolding lower_loop
lower_loop-le zero cs target lo hi h = h
lower_loop-le (suc fuel) cs target lo hi h = ground (
  arith,
  lower_loop-le fuel cs target ((lo + hi) / 2 + 1) hi,
  lower_loop-le fuel cs target lo ((lo + hi) / 2),
)

-- A position that is found is one of the list, ascending or not.
pub nearest_new-inside :
    (cs : List ℕ) (target p : ℕ) → nearest_new cs target ≡ some p → p < length cs
unfolding nearest_new nearer
nearest_new-inside cs target p e =
    ground (arith, lower_loop-le (suc (length cs)) cs target 0 (length cs) (omega arith))
